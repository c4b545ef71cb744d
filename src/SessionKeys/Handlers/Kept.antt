-- ===== src/SessionKeys/Handlers/Kept.antt =====
-- The handlers keep a session key that is revoked or expired as it is
-- (internal/server/handlers/session_keys.go, session_keys_user_custody.go).

use atara_pay.Base.{
  ◌≡◌, refl, codes, not, Option, List, Text, text_eq, Result, ok, err, Bool-cases, inl, inr,
}
use atara_pay.Base.Int.{ℤ}
use atara_pay.Http.{Caller, Failure, and_then}
use atara_pay.Http.Post.{
  Post, ok-Post, err-Post, guard-Post, need-Post, attempt-Post, bind-Post, state-Post,
}
use atara_pay.Transfers.Rows.{WalletGroup, Wallet}
use atara_pay.SessionKeys.Rows.{KeyStore, is_active}
use atara_pay.SessionKeys.Input.{MintError, Ports}
use atara_pay.SessionKeys.Custody.{SubmitError}
use atara_pay.SessionKeys.Custody.Activation.{submit_authorize-IsSubmitted}
use atara_pay.SessionKeys.Requests.{CreateSessionKeyRequest}
use atara_pay.SessionKeys.Handlers.{
  Desk, KeyCall, keep_store, reread, answer_created, answer_submitted, create_user_custody,
  create_platform_custody, create_session_key, list_session_keys, own_group, as_submitted,
  submit_key_authorize, revoke_active, revoke_session_key,
}
use atara_pay.SessionKeys.Handlers.Over.{
  IsOver, revoke_key-IsOver, submit-IsOver, mint-IsOver, prepare-IsOver,
}

module _ (ports : Ports) where
  keep_store-IsOver :
      {A : Type 0} (id : Text) (m : Result MintError (A × KeyStore)) (d : Desk)
      → IsOver id d.store.keys
      → ((a : A) (store' : KeyStore) → m ≡ ok (a, store') → IsOver id store'.keys)
      → Post (λ a d'. IsOver id d'.store.keys) (λ d'. IsOver id d'.store.keys) (keep_store m d)
  unfolding keep_store
  keep_store-IsOver id (ok (a, store)) d over h = ok-Post (h a store refl)
  keep_store-IsOver id (err e) d over h = err-Post over

answer_created-IsOver :
    (id : Text) (call : KeyCall) (key private_key : Text) (unsigned : Option Text) (d : Desk)
    → IsOver id d.store.keys
    → Post
        (λ a d'. IsOver id d'.store.keys)
        (λ d'. IsOver id d'.store.keys)
        (answer_created call key private_key unsigned d)
unfolding answer_created reread and_then
answer_created-IsOver id call key private_key unsigned d over =
    need-Post _ _ over λ row found. ok-Post over

answer_submitted-IsOver :
    (id : Text) (call : KeyCall) (key hash : Text) (d : Desk)
    → IsOver id d.store.keys
    → Post
        (λ a d'. IsOver id d'.store.keys)
        (λ d'. IsOver id d'.store.keys)
        (answer_submitted call key hash d)
unfolding answer_submitted reread and_then
answer_submitted-IsOver id call key hash d over = need-Post _ _ over λ row found. ok-Post over

-- What a handler keeps.
abbrev pub KeepsOver : {A : Type 0} → Text → Result Failure A × Desk → Type 0
KeepsOver id m = Post (λ a d. IsOver id d.store.keys) (λ d. IsOver id d.store.keys) m

create_user_custody-IsOver :
    (id : Text) (call : KeyCall) (tenant : Text) (group : WalletGroup) (wallet : Wallet)
    (req : CreateSessionKeyRequest) (d : Desk)
    → IsOver id d.store.keys
    → KeepsOver id (create_user_custody call tenant group wallet req d)
unfolding create_user_custody
create_user_custody-IsOver id call tenant group wallet req d over = attempt-Post _ _ over λ caps e1.
    attempt-Post _ _ over λ expires e2. guard-Post _ _ over λ rail.
      bind-Post _
        (keep_store-IsOver call.ports id _ d over (λ prepared store' done.
          prepare-IsOver call.ports call.build id _ d.store prepared store' done over))
        λ prepared d' over'. answer_created-IsOver id call _ _ _ d' over'

create_platform_custody-IsOver :
    (id : Text) (call : KeyCall) (tenant rail : Text) (group : WalletGroup) (wallet : Wallet)
    (req : CreateSessionKeyRequest) (d : Desk)
    → IsOver id d.store.keys
    → KeepsOver id (create_platform_custody call tenant rail group wallet req d)
unfolding create_platform_custody
create_platform_custody-IsOver id call tenant rail group wallet req d over =
    attempt-Post _ _ over λ caps e1. attempt-Post _ _ over λ expires e2. guard-Post _ _ over λ fits.
      bind-Post _
        (keep_store-IsOver call.ports id _ d over (λ minted store' done.
          mint-IsOver call.ports id _ d.store _ refl over minted store' done))
        λ minted d' over'. answer_created-IsOver id call _ _ _ d' over'

revoke_active-IsOver :
    (id : Text) (call : KeyCall) (key reason : Text) (d : Desk)
    → IsOver id d.store.keys
    → KeepsOver id (revoke_active call key reason d)
unfolding revoke_active and_then
revoke_active-IsOver id call key reason d over =
    let later = revoke_key-IsOver id key reason call.now d.store over in
    guard-Post _ _ over λ up. need-Post _ _ later λ row found. ok-Post later

pub revoke_session_key-IsOver :
    (id : Text) (caller : Caller) (call : KeyCall) (key reason : Text) (d : Desk)
    → IsOver id d.store.keys
    → KeepsOver id (revoke_session_key caller call key reason d)
unfolding revoke_session_key
revoke_session_key-IsOver id caller call key reason d over = guard-Post _ _ over λ known.
    guard-Post _ _ over λ role. guard-Post _ _ over λ named. state-Post _ (
      need-Post _ _ over λ row found. guard-Post _ _ over λ own.
        elim (Bool-cases (not (is_active row.status))) [
          | inl e ↦ rw e (ok-Post over)
          | inr e ↦ rw e (revoke_active-IsOver id call key _ d over)
        ])

module _ (id : Text) (groups : List WalletGroup) (wallets : List Wallet) where
  own_group-IsOver :
      (caller : Caller) (call : KeyCall) (group_id : Text) (d : Desk)
      → IsOver id d.store.keys
      → KeepsOver id (own_group groups wallets caller call group_id d)
  own_group-IsOver caller call group_id d over =
      need-Post _ _ over λ group found. guard-Post _ _ over λ own. ok-Post over

  pub create_session_key-IsOver :
      (caller : Caller) (call : KeyCall) (group_id : Text) (req : CreateSessionKeyRequest)
      (d : Desk)
      → IsOver id d.store.keys
      → KeepsOver id (create_session_key groups wallets caller call group_id req d)
  unfolding create_session_key
  create_session_key-IsOver caller call group_id req d over = guard-Post _ _ over λ known.
      guard-Post _ _ over λ named. guard-Post _ _ over λ role. attempt-Post _ _ over λ unit fine.
        bind-Post _ (own_group-IsOver caller call group_id d over) λ group d' over'.
          need-Post _ _ over' λ wallet held.
            elim (Bool-cases (text_eq wallet.custody (codes "user"))) [
              | inl user ↦
                  rw user
                    (create_user_custody-IsOver id call caller.tenant_id group wallet req d' over')
              | inr platform ↦ rw platform (
                  create_platform_custody-IsOver id call caller.tenant_id _ group wallet req d'
                    over')
            ]

  pub list_session_keys-IsOver :
      (caller : Caller) (call : KeyCall) (group_id : Text) (limit offset : ℤ) (d : Desk)
      → IsOver id d.store.keys
      → KeepsOver id (list_session_keys groups wallets caller call group_id limit offset d)
  unfolding list_session_keys
  list_session_keys-IsOver caller call group_id limit offset d over = guard-Post _ _ over λ known.
      guard-Post _ _ over λ named.
        bind-Post _ (own_group-IsOver caller call group_id d over)
          λ group d' over'. guard-Post _ _ over' λ up. state-Post _ (ok-Post over')

  as_submitted-IsOver :
      (r : Result SubmitError Text × KeyStore) (d : Desk)
      → IsOver id r.1.keys
      → KeepsOver id (as_submitted r d)
  as_submitted-IsOver (ok hash, store) d over = ok-Post over
  as_submitted-IsOver (err e, store) d over = err-Post over

  pub submit_key_authorize-IsOver :
      (caller : Caller) (call : KeyCall) (group_id key signed : Text) (d : Desk)
      → IsOver id d.store.keys
      → KeepsOver id (submit_key_authorize groups wallets caller call group_id key signed d)
  unfolding submit_key_authorize
  submit_key_authorize-IsOver caller call group_id key signed d over = guard-Post _ _ over λ known.
      guard-Post _ _ over λ named. guard-Post _ _ over λ filled.
        bind-Post _ (own_group-IsOver caller call group_id d over) λ group d' over'.
          bind-Post _
            (as_submitted-IsOver _ d' (
              submit-IsOver call.chain caller.tenant_id id key signed d'.store _
                (submit_authorize-IsSubmitted call.chain caller.tenant_id key signed d'.store)
                over'))
            λ hash d'' over''. answer_submitted-IsOver id call key hash d'' over''
