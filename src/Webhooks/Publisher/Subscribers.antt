-- ===== src/Webhooks/Publisher/Subscribers.antt =====
-- Who receives an event (internal/webhooks/publisher.go, `Publish`).
use atara_pay.Base.{
  ℕ, ◌+◌, ◌≡◌, refl, ap, false, ◌&&◌, some, List, [], ◌∷◌, ◌++◌, map, Text, text_eq, length, All,
  ok, arith, Bool-cases, inl, inr, if◌then◌else◌,
}
use atara_pay.Webhooks.Store.{
  pending, ResourceRefs, WebhookEvent, WebhookEndpoint, Database, is_active,
}
use atara_pay.Webhooks.Worker.{pgx_text}
use atara_pay.Webhooks.Publisher.{
  Outside, endpoint_subscribed, active_endpoints, event_row, fan_out, publish,
}

module _ (out : Outside) where
  -- The endpoints of a tenant that are active and subscribe to an event type.
  abbrev pub subscribers : Text → Text → List WebhookEndpoint → List WebhookEndpoint
  subscribers tenant event_type [] = []
  subscribers tenant event_type (e ∷ rows) =
      let rest = subscribers tenant event_type rows in
      if (text_eq e.tenant_id tenant && is_active e.status) && endpoint_subscribed out e event_type
      then e ∷ rest
      else rest

  -- A row that waits for its first delivery, due at once.
  pub record IsQueued (tenant event_type body : Text) (e : WebhookEvent) : Type 0 where
    pub of_tenant : e.tenant_id ≡ tenant
    pub of_type : e.event_type ≡ event_type
    pub with_body : e.event_data ≡ body
    pub is_pending : e.status ≡ pending
    pub untried : e.attempts ≡ 0
    pub due : e.next_attempt_at ≡ some out.now

  module _ (tenant event_type body : Text) (refs : ResourceRefs)
      (stored : (row : WebhookEvent) → out.insert_fails row ≡ false) where
    addresses :
        (rows : List WebhookEndpoint) (n : ℕ)
        → map
            (λ e. e.endpoint_id)
            (fan_out out tenant event_type body refs (active_endpoints out tenant rows) n).0
          ≡ map (λ e. pgx_text e.id) (subscribers tenant event_type rows)
    unfolding fan_out active_endpoints event_row
    addresses [] n = refl
    addresses (e ∷ rows) n = elim (Bool-cases (text_eq e.tenant_id tenant && is_active e.status)) [
      | inr other ↦ simp other (addresses rows n)
      | inl own ↦ elim (Bool-cases (endpoint_subscribed out e event_type)) [
        | inl wants ↦
            simp (own, wants, stored) (ap (λ t. pgx_text e.id ∷ t) (addresses rows (n + 1)))
        | inr spared ↦ simp (own, spared) (addresses rows (n + 1))
      ]
    ]

    counted :
        (eps : List WebhookEndpoint) (n : ℕ)
        → (fan_out out tenant event_type body refs eps n).1
          ≡ length (fan_out out tenant event_type body refs eps n).0
    unfolding fan_out
    counted [] n = refl
    counted (e ∷ eps) n = elim (Bool-cases (endpoint_subscribed out e event_type)) [
      | inl wants ↦ simp (wants, stored) (omega (arith, counted eps (n + 1)))
      | inr spared ↦ simp spared (counted eps (n + 1))
    ]

    queued :
        (eps : List WebhookEndpoint) (n : ℕ)
        → All (IsQueued tenant event_type body) (fan_out out tenant event_type body refs eps n).0
    unfolding fan_out event_row
    queued [] n = tt
    queued (e ∷ eps) n = elim (Bool-cases (endpoint_subscribed out e event_type)) [
      | inl wants ↦
          simp (wants, stored)
            (
              record {
                of_tenant = refl;
                of_type = refl;
                with_body = refl;
                is_pending = refl;
                untried = refl;
                due = refl;
              },
              queued eps (n + 1),
            )
      | inr spared ↦ simp spared (queued eps (n + 1))
    ]

    -- Where the subscribers can be read and every insert succeeds, an event adds to the queue one
    -- row for each active endpoint of the tenant that subscribes to it, in order, and no other;
    -- each row is pending, untried and due at once; and the answer is their number.
    pub publish-subscribers :
        (db : Database)
        → out.list_fails ≡ false
        → (rows : List WebhookEvent) × (publish out tenant event_type (some body) refs db
            ≡ (ok (length rows), record db { events = db.events ++ rows }))
          × (map (λ e. e.endpoint_id) rows
              ≡ map (λ e. pgx_text e.id) (subscribers tenant event_type db.endpoints))
          × All (IsQueued tenant event_type body) rows
    unfolding publish
    publish-subscribers db h =
        let eps = active_endpoints out tenant db.endpoints in
        (
          (fan_out out tenant event_type body refs eps 0).0,
          simp (h, counted) refl,
          addresses db.endpoints 0,
          queued eps 0,
        )
