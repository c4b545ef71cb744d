-- ===== src/Webhooks/Store/Rows.antt =====
-- Reading a row after a statement.
use mathlib.Core.Option
use atara_pay.Base.{
  ◌≡◌, refl, ap, ◌∙◌, List, [], ◌∷◌, Text, text_eq, text_eq→eq, arith, Bool-cases, inl, inr, false,
}
use atara_pay.Webhooks.Store.{
  WebhookEvent, WebhookEndpoint, get_event, update_event, get_endpoint, update_endpoint,
}

-- A statement that keeps the key changes the row that it names.
pub get_event-update_event :
    (id : Text) (f : WebhookEvent → WebhookEvent) (rows : List WebhookEvent)
    → ((e : WebhookEvent) → (f e).id ≡ e.id)
    → get_event id (update_event id f rows) ≡ Option.map f (get_event id rows)
unfolding get_event update_event
get_event-update_event id f [] keeps = refl
get_event-update_event id f (e ∷ rows) keeps = elim (Bool-cases (text_eq e.id id)) [
  | inl this ↦ simp (this, keeps) refl
  | inr other ↦ simp (other) (get_event-update_event id f rows keeps)
]

-- It leaves every other row alone.
pub get_event-update_event_ne :
    (id key : Text) (f : WebhookEvent → WebhookEvent) (rows : List WebhookEvent)
    → ((e : WebhookEvent) → (f e).id ≡ e.id)
    → text_eq key id ≡ false
    → get_event id (update_event key f rows) ≡ get_event id rows
unfolding get_event update_event
get_event-update_event_ne id key f [] keeps h = refl
get_event-update_event_ne id key f (e ∷ rows) keeps h = elim (Bool-cases (text_eq e.id key)) [
  | inl this ↦
      let differs : text_eq e.id id ≡ false =
        ap (λ k. text_eq k id) (text_eq→eq e.id key this) ∙ h in
      simp (this, keeps, differs) (get_event-update_event_ne id key f rows keeps h)
  | inr other ↦ simp other (ground (arith, get_event-update_event_ne id key f rows keeps h))
]

pub get_endpoint-update_endpoint :
    (id : Text) (f : WebhookEndpoint → WebhookEndpoint) (rows : List WebhookEndpoint)
    → ((e : WebhookEndpoint) → (f e).id ≡ e.id)
    → get_endpoint id (update_endpoint id f rows) ≡ Option.map f (get_endpoint id rows)
unfolding get_endpoint update_endpoint
get_endpoint-update_endpoint id f [] keeps = refl
get_endpoint-update_endpoint id f (e ∷ rows) keeps = elim (Bool-cases (text_eq e.id id)) [
  | inl this ↦ simp (this, keeps) refl
  | inr other ↦ simp other (get_endpoint-update_endpoint id f rows keeps)
]
