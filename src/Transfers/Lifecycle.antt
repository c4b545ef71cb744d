-- ===== src/Transfers/Lifecycle.antt =====
-- The life of a row of the ledger under the three operations: it is opened once, and only a
-- prepared row changes, once (internal/server/handlers/wallet_group_tx.go,
-- wallet_group_tx_prepare.go).
use mathlib.Core.Path.{subst}
use mathlib.Core.Option.{some-injective}
use atara_pay.Base.{
  ◌≡◌, refl, sym, ap, ◌⊎◌, inl, inr, true, false, Option, none, some, List, [], ◌∷◌, Text, codes,
  text_eq, text_eq→eq, Bool-cases, if◌then◌else◌, arith,
}
use atara_pay.Limits.Calendar.{Time}
use atara_pay.Transfers.Rows.{
  Transaction, get_transaction, is_none, insertable, update_transaction, set_status,
}

-- What may become of the row of one id.
pub data Advances : Option Transaction → Option Transaction → Type 0 where
  stays : {o : Option Transaction} → Advances o o
  opens : (t : Transaction) → Advances none (some t)
  moves :
      (t : Transaction) (status : Text) (hash : Option Text) (now : Time)
      → t.status ≡ codes "prepared"
      → (status ≡ codes "broadcast") ⊎ (status ≡ codes "failed")
      → Advances (some t) (some (set_status status hash now t))

none_of : {A : Type 0} (o : Option A) → is_none o ≡ true → o ≡ none
none_of none h = refl
none_of (some a) h = absurd (cc)

pub insert-Advances :
    (id : Text) (row : Transaction) (rows : List Transaction)
    → insertable row rows ≡ true
    → Advances (get_transaction id rows) (get_transaction id (row ∷ rows))
unfolding get_transaction insertable
insert-Advances id row rows h = elim (Bool-cases (text_eq row.id id)) [
  | inr e ↦ simp e stays
  | inl e ↦
      let fresh : get_transaction id rows ≡ none =
        subst (λ i. get_transaction i rows ≡ none) (text_eq→eq row.id id e)
          (none_of (get_transaction row.id rows) (ground arith)) in
      simp e (subst (λ o. Advances o (some row)) (sym fresh) (opens row))
]

module _ (status : Text) (hash : Option Text) (now : Time) where
  abbrev change : Transaction → Transaction
  change = set_status status hash now

  get-update_other :
      (id id' : Text) (rows : List Transaction)
      → text_eq id' id ≡ false
      → get_transaction id (update_transaction id' change rows) ≡ get_transaction id rows
  unfolding get_transaction update_transaction set_status
  get-update_other id id' [] h = refl
  get-update_other id id' (t ∷ rows) h = elim (Bool-cases (text_eq t.id id')) [
    | inl e ↦
        let apart : text_eq t.id id ≡ false =
          subst (λ i. text_eq i id ≡ false) (sym (text_eq→eq t.id id' e)) h in
        simp (e, apart) (get-update_other id id' rows h)
    | inr e ↦
        simp e (ap (λ o. if text_eq t.id id then some t else o) (get-update_other id id' rows h))
  ]

  pub get-update_same :
      (id : Text) (t : Transaction) (rows : List Transaction)
      → get_transaction id rows ≡ some t
      → get_transaction id (update_transaction id change rows) ≡ some (change t)
  unfolding get_transaction update_transaction set_status
  get-update_same id t [] h = absurd (cc)
  get-update_same id t (u ∷ rows) h = elim (Bool-cases (text_eq u.id id)) [
    | inl e ↦ simp e (ap (λ x. some (change x)) (some-injective u t (simp e at h)))
    | inr e ↦ simp e (get-update_same id t rows (simp e at h))
  ]

  pub update-Advances :
      (id : Text) (row : Transaction) (rows : List Transaction)
      → get_transaction row.id rows ≡ some row
      → row.status ≡ codes "prepared"
      → (status ≡ codes "broadcast") ⊎ (status ≡ codes "failed")
      → Advances
          (get_transaction id rows)
          (get_transaction id (update_transaction row.id change rows))
  update-Advances id row rows found ready which = elim (Bool-cases (text_eq row.id id)) [
    | inr e ↦
        subst (Advances (get_transaction id rows)) (sym (get-update_other id row.id rows e)) stays
    | inl e ↦
        subst
          (λ i.
            Advances (get_transaction i rows)
              (get_transaction i (update_transaction row.id change rows)))
          (text_eq→eq row.id id e)
          (subst (λ o. Advances o (get_transaction row.id (update_transaction row.id change rows)))
            (sym found)
            (subst (Advances (some row)) (sym (get-update_same row.id row rows found))
              (moves row status hash now ready which)))
  ]
