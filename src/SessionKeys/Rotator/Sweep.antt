-- ===== src/SessionKeys/Rotator/Sweep.antt =====
-- What the sweep does to each key (internal/sessionkey/rotator.go, `Tick`).
use mathlib.Core.Option
use atara_pay.Base.{
  ◌≡◌, refl, ap, ◌∙◌, Bool, true, false, ◌||◌, Option, none, some, List, [], ◌∷◌, Text, text_eq,
  text_eq→eq, any, arith, Bool-cases, inl, inr, length,
}
use atara_pay.SessionKeys.Rows.{SessionKey, KeyStore, expired, get_key, update_key, update_status}
use atara_pay.SessionKeys.Rotator.{Feed, sweep}

-- The row of a key after the sweep of a list.
abbrev pub expire : SessionKey → SessionKey
expire k = record k { status = expired }

abbrev pub swept_row : Bool → Option SessionKey → Option SessionKey
swept_row true row = Option.map expire row
swept_row false row = row

pub get_key-update_key :
    (id : Text) (f : SessionKey → SessionKey) (rows : List SessionKey)
    → ((k : SessionKey) → (f k).id ≡ k.id)
    → get_key id (update_key id f rows) ≡ Option.map f (get_key id rows)
unfolding get_key update_key
get_key-update_key id f [] keeps = refl
get_key-update_key id f (k ∷ rows) keeps = elim (Bool-cases (text_eq k.id id)) [
  | inl this ↦ simp (this, keeps) refl
  | inr other ↦ simp other (get_key-update_key id f rows keeps)
]

pub get_key-update_key_ne :
    (id key : Text) (f : SessionKey → SessionKey) (rows : List SessionKey)
    → ((k : SessionKey) → (f k).id ≡ k.id)
    → text_eq key id ≡ false
    → get_key id (update_key key f rows) ≡ get_key id rows
unfolding get_key update_key
get_key-update_key_ne id key f [] keeps h = refl
get_key-update_key_ne id key f (k ∷ rows) keeps h = elim (Bool-cases (text_eq k.id key)) [
  | inl this ↦
      let differs : text_eq k.id id ≡ false =
        ap (λ t. text_eq t id) (text_eq→eq k.id key this) ∙ h in
      simp (this, keeps, differs) (get_key-update_key_ne id key f rows keeps h)
  | inr other ↦ simp other (ground (arith, get_key-update_key_ne id key f rows keeps h))
]

update_status-row :
    (id key : Text) (store : KeyStore)
    → get_key id (update_status key expired store).keys
      ≡ swept_row (text_eq key id) (get_key id store.keys)
unfolding update_status
update_status-row id key store = elim (Bool-cases (text_eq key id)) [
  | inl this ↦ rw this (
      ap (λ t. get_key id (update_key t expire store.keys)) (text_eq→eq key id this)
      ∙ get_key-update_key id expire store.keys (λ k. refl))
  | inr other ↦ rw other (get_key-update_key_ne id key expire store.keys (λ k. refl) other)
]

swept_twice :
    (a b : Bool) (row : Option SessionKey) → swept_row b (swept_row a row) ≡ swept_row (a || b) row
swept_twice true true none = refl
swept_twice true true (some k) = refl
swept_twice true false row = refl
swept_twice false b row = refl

-- Where no update fails, the sweep of a list of keys marks every key that it lists as expired,
-- whatever its status is by then, leaves every other key as it was, and counts the list.
pub sweep-get_key :
    (feed : Feed) (id : Text) (list : List SessionKey) (store : KeyStore)
    → ((key : Text) → feed.update_fails key ≡ false)
    → (get_key id (sweep feed list store).1.keys
        ≡ swept_row (any (λ k. text_eq k.id id) list) (get_key id store.keys))
      × ((sweep feed list store).0 ≡ length list)
unfolding sweep
sweep-get_key feed id [] store works = (refl, refl)
sweep-get_key feed id (k ∷ list) store works =
    let later = sweep-get_key feed id list (update_status k.id expired store) works in
    (
      simp (works) (
          later.0
          ∙ ap (swept_row (any (λ j. text_eq j.id id) list)) (update_status-row id k.id store)
          ∙ swept_twice (text_eq k.id id) (any (λ j. text_eq j.id id) list)
              (get_key id store.keys)),
      simp (works) (omega (arith, later.1)),
    )
