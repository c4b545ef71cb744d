-- ===== src/Endpoints/Protection.antt =====
-- What no request can do to an endpoint (internal/server/handlers/webhooks.go).
use mathlib.Core.Path.{subst}
use mathlib.Core.Option.{some-injective}
use atara_pay.Base.{
  if◌then◌else◌, ◌≡◌, ◌≢◌, refl, sym, ap, ◌∙◌, inl, inr, true, false, none, some, List, [], ◌∷◌,
  Text, text_eq, text_eq→eq, Bool-cases,
}
use atara_pay.Http.{Caller, role_allows}
use atara_pay.Webhooks.Store.{WebhookEndpoint, Database, update_endpoint, get_endpoint}
use atara_pay.Endpoints.{Library}
use atara_pay.Endpoints.Handlers.{Chances, is_deleted}
use atara_pay.Endpoints.Isolation.{
  EndpointOperation, IsChange, same, added, changed, serve_endpoint, serve_endpoint-IsChange,
}

-- The row is another tenant's, or deleted, or the caller's role may not manage endpoints.
pub data IsProtected (caller : Caller) (row : WebhookEndpoint) : Type 0 where
  foreign : row.tenant_id ≢ caller.tenant_id → IsProtected caller row
  gone : is_deleted row.status ≡ true → IsProtected caller row
  no_role : role_allows caller ≡ false → IsProtected caller row

get-update_other :
    (id key : Text) (f : WebhookEndpoint → WebhookEndpoint) (rows : List WebhookEndpoint)
    → ((e : WebhookEndpoint) → (f e).id ≡ e.id)
    → text_eq key id ≡ false
    → get_endpoint id (update_endpoint key f rows) ≡ get_endpoint id rows
unfolding get_endpoint update_endpoint
get-update_other id key f [] keeps h = refl
get-update_other id key f (t ∷ rows) keeps h = elim (Bool-cases (text_eq t.id key)) [
  | inl e ↦
      let apart : text_eq t.id id ≡ false =
        subst (λ i. text_eq i id ≡ false) (sym (text_eq→eq t.id key e)) h in
      let apart' : text_eq (f t).id id ≡ false = ap (λ i. text_eq i id) (keeps t) ∙ apart in
      simp (e, apart, apart') (get-update_other id key f rows keeps h)
  | inr e ↦
      simp e
        (ap (λ o. if text_eq t.id id then some t else o) (get-update_other id key f rows keeps h))
]

-- A protected row is not the live row of the caller's tenant that a statement is for.
other :
    (caller : Caller) (row old : WebhookEndpoint)
    → IsProtected caller row
    → role_allows caller ≡ true
    → old.tenant_id ≡ caller.tenant_id
    → is_deleted old.status ≡ false
    → row ≢ old
other caller row old (foreign away) role own live e = away (ap (λ x. x.tenant_id) e ∙ own)
other caller row old (gone dead) role own live e =
    let clash : true ≡ false = sym dead ∙ ap (λ x. is_deleted x.status) e ∙ live in absurd (cc)
other caller row old (no_role denied) role own live e = absurd (cc)

protects :
    (caller : Caller) (db db' : Database) (id : Text) (row : WebhookEndpoint)
    → get_endpoint id db.endpoints ≡ some row
    → IsProtected caller row
    → IsChange caller db db'
    → get_endpoint id db'.endpoints ≡ some row
unfolding get_endpoint
protects caller db db' id row found why (same e) =
    ap (λ (d : Database). get_endpoint id d.endpoints) e ∙ found
protects caller db db' id row found why (added new role own fresh e) =
    ap (λ (d : Database). get_endpoint id d.endpoints) e ∙ elim (Bool-cases (text_eq new.id id)) [
      | inr apart ↦ simp apart found
      | inl at ↦
          let clash : none ≡ some row =
            sym fresh ∙ ap (λ i. get_endpoint i db.endpoints) (text_eq→eq new.id id at) ∙ found in
          absurd (cc)
    ]
protects caller db db' id row found why (changed key old f role here own live keeps e) =
    ap (λ (d : Database). get_endpoint id d.endpoints) e ∙ elim (Bool-cases (text_eq key id)) [
      | inr apart ↦ get-update_other id key f db.endpoints keeps apart ∙ found
      | inl at ↦ absurd (
          other caller row old why role own live (
            some-injective row old (
              sym found
              ∙ ap (λ i. get_endpoint i db.endpoints) (sym (text_eq→eq key id at))
              ∙ here)))
    ]

-- No request to the endpoints' routes changes an endpoint of another tenant, or a deleted one, or
-- any endpoint where the caller's role is neither owner nor admin; a caller without a role came
-- with an API key.
pub serve_endpoint_protects :
    (lib : Library) (caller : Caller) (now : Chances) (op : EndpointOperation) (db : Database)
    (id : Text) (row : WebhookEndpoint)
    → get_endpoint id db.endpoints ≡ some row
    → IsProtected caller row
    → get_endpoint id (serve_endpoint lib caller now op db).endpoints ≡ some row
serve_endpoint_protects lib caller now op db id row found why =
    protects caller db _ id row found why (serve_endpoint-IsChange lib caller now op db)
