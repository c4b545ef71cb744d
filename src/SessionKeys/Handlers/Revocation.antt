-- ===== src/SessionKeys/Handlers/Revocation.antt =====
-- What the revocation of a session key achieves (internal/server/handlers/session_keys.go), up to
-- the transfers that name it (internal/server/handlers/wallet_group_tx.go).
use mathlib.Core.Path.{subst}
use mathlib.Core.Option
use mathlib.Core.Option.{some-injective}
use atara_pay.Base.{
  is_on, ◌≡◌, refl, sym, ap, ◌∙◌, Bool, true, false, not, some, List, Text, is_nil, ok, err,
  Bool-cases, inl, inr, arith,
}
use atara_pay.Http.{Caller, Failure, Reply, and_then}
use atara_pay.Http.Post.{Post, ok-Post, guard-Post, need-Post, state-Post, Post-ok, Post-err}
use atara_pay.Limits.Counter.{Redis}
use atara_pay.Limits.Policy.{Querier, Std}
use atara_pay.Transfers.{SendTransactionRequest}
use atara_pay.Transfers.Rows.{WalletGroup, Wallet}
use atara_pay.Transfers.Plane.{Outside, Directory, Parts, Circumstances, Plane}
use atara_pay.Transfers.Send.{send_transaction}
use atara_pay.Transfers.Authorised.{IsSigner, master, session, authorise-IsGranted, answered}
use atara_pay.SessionKeys.Rows.{
  KeyStatus, pending_authorize, active, rotating, expired, revoked, SessionKey, get_key, revoke_key,
  is_active,
}
use atara_pay.SessionKeys.Rotator.Sweep.{get_key-update_key}
use atara_pay.SessionKeys.Requests.{SessionKeyView}
use atara_pay.SessionKeys.Handlers.{Desk, KeyCall, revoke_active, revoke_session_key}
use atara_pay.SessionKeys.Handlers.Histories.{KeyOp, serve_keys, serve_keys-IsOver}
use atara_pay.SessionKeys.Handlers.Over.{is_over, IsOver}

-- The statuses in which a revocation leaves a key alone although it may still come to sign.
abbrev pub is_underway : KeyStatus → Bool
is_underway pending_authorize = true
is_underway rotating = true
is_underway s = false

finished : (s : KeyStatus) → is_underway s ≡ false → is_active s ≡ false → is_over s ≡ true
finished pending_authorize h k = cc
finished active h k = cc
finished rotating h k = cc
finished expired h k = refl
finished revoked h k = refl

is_off : (b : Bool) → not b ≡ true → b ≡ false
is_off b h = ground arith

revoke_active-ends :
    (call : KeyCall) (id reason : Text) (row : SessionKey) (d : Desk)
    → get_key id d.store.keys ≡ some row
    → is_active row.status ≡ true
    → Post (λ r d'. IsOver id d'.store.keys) (λ d'. Unit {0}) (revoke_active call id reason d)
unfolding revoke_active revoke_key and_then
revoke_active-ends call id reason row d found live = guard-Post _ _ tt λ up.
    need-Post _ _ tt λ after_row read. ok-Post (
      _,
      get_key-update_key id _ d.store.keys (λ k. ground arith) ∙ ap (Option.map _) found,
      rw live refl,
    )

revoke_session_key-ends :
    (caller : Caller) (call : KeyCall) (id reason : Text) (row : SessionKey) (d : Desk)
    → get_key id d.store.keys ≡ some row
    → is_underway row.status ≡ false
    → Post
        (λ r d'. IsOver id d'.store.keys)
        (λ d'. Unit {0})
        (revoke_session_key caller call id reason d)
unfolding revoke_session_key
revoke_session_key-ends caller call id reason row d found settled = guard-Post _ _ tt λ known.
    guard-Post _ _ tt λ role. guard-Post _ _ tt λ named. state-Post _ (
      need-Post _ _ tt λ read e. guard-Post _ _ tt λ own.
        let found' = answered _ _ _ e in
        let same : row ≡ read = some-injective row read (sym found ∙ found') in
        elim (Bool-cases (not (is_active read.status))) [
          | inl gone ↦ rw gone (
              ok-Post (
                read,
                found',
                finished read.status (ap (λ k. is_underway k.status) (sym same) ∙ settled)
                    (is_off _ gone),
              ))
          | inr live ↦ rw live (revoke_active-ends call id _ read d found' (is_on _ live))
        ])

-- The tables that a transfer reads, with these session keys.
abbrev pub with_keys : Directory → Desk → Directory
with_keys dir d = record dir { session_keys = d.store.keys }

no_signer :
    (out : Outside) (dir : Directory) (caller : Caller) (now : Circumstances) (wallet : Wallet)
    (req : SendTransactionRequest) (signer : Text)
    → is_nil req.signer_id ≡ false
    → IsOver req.signer_id dir.session_keys
    → IsSigner out dir caller now wallet req signer
    → ⊥
no_signer out dir caller now wallet req signer filled over (master none_given e) = cc
no_signer out dir caller now wallet req signer filled (k, found, over)
      (session j held tenant own live fresh e) =
    let same : k ≡ j = some-injective k j (sym found ∙ held) in
    let no : true ≡ false = sym over ∙ ap (λ x. is_over x.status) same ∙ ap is_over live in cc

module _ (groups : List WalletGroup) (wallets : List Wallet) (std : Std) (r : Redis) (out : Outside)
    (q : Querier) (dir : Directory) (parts : Parts) where
  -- Once the revocation of a session key has succeeded that was neither waiting for authorization
  -- nor rotating, and whatever requests about keys and sweeps follow, each transfer that names it as
  -- its signer fails: it moves no money and changes nothing.
  pub revoked_signer_never_spends :
      (caller sender : Caller) (call : KeyCall) (id reason : Text) (row : SessionKey) (d : Desk)
      (answer : Reply SessionKeyView) (ops : List KeyOp) (now : Circumstances) (group_id : Text)
      (req : SendTransactionRequest) (s : Plane std r)
      → get_key id d.store.keys ≡ some row
      → is_underway row.status ≡ false
      → (revoke_session_key caller call id reason d).0 ≡ ok answer
      → req.signer_id ≡ id
      → is_nil id ≡ false
      → (f : Failure) × (send_transaction std r out q
            (with_keys dir
              (serve_keys groups wallets ops (revoke_session_key caller call id reason d).1))
            parts
            sender
            now
            group_id
            req
            s
          ≡ (err f, s))
  unfolding send_transaction and_then
  revoked_signer_never_spends caller sender call id reason row d answer ops now group_id req s found
        settled done signs filled =
      let d' : Desk =
        serve_keys groups wallets ops (revoke_session_key caller call id reason d).1 in
      let dir' : Directory = with_keys dir d' in
      let over : IsOver id d'.store.keys =
        serve_keys-IsOver groups wallets id ops (revoke_session_key caller call id reason d).1
          (Post-ok (revoke_session_key-ends caller call id reason row d found settled) done) in
      let (f, s', stopped, unchanged) =
        Post-err (authorise-IsGranted std r out q dir' parts sender now group_id req s)
          (λ grant t h.
            no_signer out dir' sender now grant.wallet req grant.signer_id
              (ap is_nil signs ∙ filled) (subst (λ t. IsOver t d'.store.keys) (sym signs) over)
              h.0.signer) in
      (f, ap (and_then _) stopped ∙ ap (λ t. (err f, t)) unchanged)
