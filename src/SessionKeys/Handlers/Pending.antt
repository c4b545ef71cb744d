-- ===== src/SessionKeys/Handlers/Pending.antt =====
-- What the revocation of a key that waits does not achieve (internal/server/handlers/session_keys.go,
-- internal/sessionkey/user_custody.go).
use mathlib.Core.Option
use mathlib.Core.Option.{some-injective}
use atara_pay.Base.{
  ◌≡◌, refl, sym, ap, ◌∙◌, true, false, some, Text, text_eq, text_eq_refl, is_nil, ok,
}
use atara_pay.Http.{Caller, and_then, guard, need, role_allows}
use atara_pay.SessionKeys.Rows.{
  KeyStatus, pending_authorize, active, rotating, expired, revoked, SessionKey, KeyStore, get_key,
  is_active,
}
use atara_pay.SessionKeys.Custody.{
  Chain, is_pending, activate, broadcast_and_activate, submit_row, submit_authorize,
}
use atara_pay.SessionKeys.Rotator.Sweep.{get_key-update_key}
use atara_pay.SessionKeys.Requests.{to_session_key_view}
use atara_pay.SessionKeys.Handlers.{Desk, KeyCall, revoke_session_key}
use atara_pay.SessionKeys.Handlers.Over.{get_key-id}

not_live : (s : KeyStatus) → is_pending s ≡ true → is_active s ≡ false
not_live pending_authorize h = refl
not_live active h = cc
not_live rotating h = cc
not_live expired h = cc
not_live revoked h = cc

revocation_ignored :
    (caller : Caller) (call : KeyCall) (id reason : Text) (row : SessionKey) (d : Desk)
    → is_nil caller.tenant_id ≡ false
    → role_allows caller ≡ true
    → is_nil id ≡ false
    → call.key_query_fails ≡ false
    → get_key id d.store.keys ≡ some row
    → text_eq row.tenant_id caller.tenant_id ≡ true
    → is_active row.status ≡ false
    → revoke_session_key caller call id reason d
      ≡ (ok (record { status = 200; body = to_session_key_view row }), d)
unfolding revoke_session_key and_then guard need
revocation_ignored caller call id reason row d known role named up found tenant idle =
    simp (known, role, named, up, found, tenant, idle) refl

submission_activates :
    (chain : Chain) (tenant id signed hash : Text) (row : SessionKey) (store : KeyStore)
    → get_key id store.keys ≡ some row
    → text_eq row.tenant_id tenant ≡ true
    → is_pending row.status ≡ true
    → chain.adapter ≡ true
    → chain.broadcast signed ≡ some hash
    → chain.activate_fails ≡ false
    → submit_authorize chain tenant id signed store ≡ (ok hash, activate row.id hash store)
unfolding submit_authorize submit_row broadcast_and_activate
submission_activates chain tenant id signed hash row store found own waits adapter sent fine =
    simp (adapter, found, own, waits) (rw (sent, broadcast_and_activate) (rw fine refl))

activated_row :
    (id hash : Text) (row : SessionKey) (store : KeyStore)
    → get_key id store.keys ≡ some row
    → (k : SessionKey) × (get_key id (activate row.id hash store).keys ≡ some k)
      × (k.status ≡ active)
unfolding activate
activated_row id hash row store found = (
  record row { status = active; on_chain_tx_hash = some hash },
  ap (λ t. get_key id (activate t hash store).keys) (get_key-id id store.keys row found)
      ∙ get_key-update_key id _ store.keys (λ k. refl)
      ∙ ap (Option.map _) found,
  refl,
)

-- The revocation of a key that waits for authorization, asked for by its tenant under a role that
-- may, is answered 200 and changes nothing; a submission that the rail then takes makes the key
-- active.
pub pending_key_survives :
    (caller : Caller) (call : KeyCall) (id reason signed hash : Text) (row : SessionKey) (d : Desk)
    (chain : Chain)
    → is_nil caller.tenant_id ≡ false
    → role_allows caller ≡ true
    → is_nil id ≡ false
    → call.key_query_fails ≡ false
    → get_key id d.store.keys ≡ some row
    → row.tenant_id ≡ caller.tenant_id
    → is_pending row.status ≡ true
    → chain.adapter ≡ true
    → chain.broadcast signed ≡ some hash
    → chain.activate_fails ≡ false
    → (revoke_session_key caller call id reason d
        ≡ (ok (record { status = 200; body = to_session_key_view row }), d))
      × ((k : SessionKey) × (get_key id
              (submit_authorize chain caller.tenant_id id signed
                (revoke_session_key caller call id reason d).1.store).1.keys
            ≡ some k)
          × (k.status ≡ active))
pending_key_survives caller call id reason signed hash row d chain known role named up found own
      waits adapter sent fine =
    let tenant : text_eq row.tenant_id caller.tenant_id ≡ true =
      ap (text_eq row.tenant_id) (sym own) ∙ text_eq_refl row.tenant_id in
    let ignored =
      revocation_ignored caller call id reason row d known role named up found tenant
        (not_live row.status waits) in
    let submitted =
      submission_activates chain caller.tenant_id id signed hash row d.store found tenant waits
        adapter sent fine in
    let (k, held, live) = activated_row id hash row d.store found in
    (
      ignored,
      (
        k,
        ap (λ t. get_key id (submit_authorize chain caller.tenant_id id signed t.1.store).1.keys)
              ignored
            ∙ ap (λ t. get_key id t.1.keys) submitted
            ∙ held,
        live,
      ),
    )
