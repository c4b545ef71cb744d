-- ===== src/SessionKeys/Custody/Activation.antt =====
-- Who can activate a key (internal/sessionkey/user_custody.go, `SubmitAuthorize`).
use atara_pay.Base.{
  ◌≡◌, refl, true, Option, none, some, Text, text_eq, Result, ok, err, Bool-cases, Option-cases,
  inl, inr,
}
use atara_pay.SessionKeys.Rows.{SessionKey, KeyStore, get_key}
use atara_pay.SessionKeys.Custody.{
  Chain, SubmitError, is_pending, activate, broadcast_and_activate, submit_row, submit_authorize,
}

module _ (chain : Chain) where
  -- An outcome of a submission: an error that leaves the store alone, or the activation of a row
  -- that is the tenant's and waits for it, after its transaction was broadcast.
  pub data IsSubmitted (tenant id signed : Text) (store : KeyStore)
      : Result SubmitError Text × KeyStore → Type 0 where
    refused : (e : SubmitError) → IsSubmitted tenant id signed store (err e, store)
    activated :
        (row : SessionKey) (hash : Text)
        → get_key id store.keys ≡ some row
        → text_eq row.tenant_id tenant ≡ true
        → is_pending row.status ≡ true
        → chain.broadcast signed ≡ some hash
        → IsSubmitted tenant id signed store (ok hash, activate row.id hash store)

  broadcast-IsSubmitted :
      (tenant id signed : Text) (store : KeyStore) (row : SessionKey)
      → get_key id store.keys ≡ some row
      → text_eq row.tenant_id tenant ≡ true
      → is_pending row.status ≡ true
      → IsSubmitted tenant id signed store (broadcast_and_activate chain row signed store)
  unfolding broadcast_and_activate
  broadcast-IsSubmitted tenant id signed store row found own waits =
      elim (Option-cases (chain.broadcast signed)) [
        | inl lost ↦ simp (lost, broadcast_and_activate) (refused _)
        | inr (hash, sent) ↦ elim (Bool-cases chain.activate_fails) [
          | inl broken ↦ simp (sent, broken, broadcast_and_activate) (refused _)
          | inr fine ↦
              simp (sent, fine, broadcast_and_activate) (activated row hash found own waits sent)
        ]
      ]

  submit_row-IsSubmitted :
      (tenant id signed : Text) (store : KeyStore) (found : Option SessionKey)
      → get_key id store.keys ≡ found
      → IsSubmitted tenant id signed store (submit_row chain tenant found signed store)
  unfolding submit_row
  submit_row-IsSubmitted tenant id signed store none e = refused _
  submit_row-IsSubmitted tenant id signed store (some row) e =
      elim (Bool-cases (text_eq row.tenant_id tenant)) [
        | inr foreign ↦ simp foreign (refused _)
        | inl own ↦ elim (Bool-cases (is_pending row.status)) [
          | inr settled ↦ simp (own, settled) (refused _)
          | inl waits ↦
              simp (own, waits) (broadcast-IsSubmitted tenant id signed store row e own waits)
        ]
      ]

  -- A submission leaves the store as it was and answers an error, or the key belongs to the
  -- tenant and was waiting for authorization, its transaction has been broadcast, and the
  -- answer is its hash.
  pub submit_authorize-IsSubmitted :
      (tenant id signed : Text) (store : KeyStore)
      → IsSubmitted tenant id signed store (submit_authorize chain tenant id signed store)
  unfolding submit_authorize
  submit_authorize-IsSubmitted tenant id signed store = elim (Bool-cases chain.adapter) [
    | inr missing ↦ simp missing (refused _)
    | inl there ↦
        simp there (submit_row-IsSubmitted tenant id signed store (get_key id store.keys) refl)
  ]
