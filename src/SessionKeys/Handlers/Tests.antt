-- ===== src/SessionKeys/Handlers/Tests.antt =====
-- Concrete runs of the handlers of session keys.

use atara_pay.Base.{◌≡◌, refl, true, false, some, List, [], ◌∷◌, codes, ok, err}
use atara_pay.Http.{Caller, Failure, Reply, and_then, guard, need, role_allows}
use atara_pay.Limits.Tests.{memory, plain, one_policy}
use atara_pay.Transfers.{SendTransactionRequest}
use atara_pay.Transfers.Send.{send_transaction}
use atara_pay.Transfers.Tests.{
  open_rails, directory, parts, moment, sixty, group, with_rows, wallet_on,
}
use atara_pay.SessionKeys.Rows.{
  pending_authorize, active, revoked, SessionKey, get_key, update_key, revoke_key,
}
use atara_pay.SessionKeys.Custody.{submit_authorize}
use atara_pay.SessionKeys.Mint.{key_row}
use atara_pay.SessionKeys.Requests.{SessionKeyView, to_session_key_view}
use atara_pay.SessionKeys.Tests.{feed, ports, agent_key, one_key, chain, waiting}
use atara_pay.SessionKeys.Handlers.{Desk, KeyCall, revoke_active, revoke_session_key}
use atara_pay.SessionKeys.Handlers.Histories.{KeyOp, sweep_keys, submit, revoke, serve_keys}
use atara_pay.SessionKeys.Handlers.Revocation.{with_keys, revoked_signer_never_spends}
use atara_pay.SessionKeys.Handlers.Pending.{pending_key_survives}

abbrev caller : Caller
caller = record { tenant_id = codes "t_1"; user_id = []; role = []; api_key_id = codes "k_1" }

abbrev call : KeyCall
call = record {
  ports = ports;
  build = λ wallet key caps. some (codes "0xtx");
  chain = chain;
  parse_rfc3339 = λ s. some 900;
  now = 2_000;
  publisher_wired = true;
  group_query_fails = false;
  wallet_query_fails = false;
  key_query_fails = false;
  reread_fails = false;
  update_fails = false;
  list_fails = false;
}

abbrev desk : Desk
desk = record { store = one_key; announced = [] }

-- The key is swept, and its authorization submitted again.
abbrev attempts : List KeyOp
attempts =
    sweep_keys feed
    ∷ submit caller call (codes "g_1") (codes "sk_1") (codes "0xsigned")
    ∷ revoke caller call (codes "sk_1") []
    ∷ []

abbrev by_key : SendTransactionRequest
by_key = record sixty { signer_id = codes "sk_1" }

abbrev revoked_view : Reply SessionKeyView
revoked_view = record {
  status = 200;
  body = to_session_key_view (record agent_key { status = revoked });
}

revoked_signer_never_spends_example :
    (f : Failure) × (send_transaction plain memory open_rails one_policy
        (with_keys directory (
          serve_keys
            (group ∷ [])
            (wallet_on (codes "tempo") (codes "platform") ∷ [])
            attempts
            (revoke_session_key caller call (codes "sk_1") [] desk).1))
        parts
        caller
        (moment (codes "tx_1"))
        (codes "g_1")
        by_key
        (with_rows [])
      ≡ (err f, with_rows []))
unfolding revoke_session_key revoke_active revoke_key get_key update_key role_allows and_then guard
    need to_session_key_view key_row
revoked_signer_never_spends_example =
    revoked_signer_never_spends (group ∷ []) (wallet_on (codes "tempo") (codes "platform") ∷ [])
      plain memory open_rails one_policy directory parts caller caller call (codes "sk_1") []
      agent_key desk revoked_view attempts (moment (codes "tx_1")) (codes "g_1") by_key
      (with_rows []) refl refl refl refl refl

abbrev pending_key : SessionKey
pending_key = record agent_key { status = pending_authorize; rail_native = true }

abbrev waiting_desk : Desk
waiting_desk = record { store = waiting; announced = [] }

pending_key_survives_example :
    (revoke_session_key caller call (codes "sk_1") [] waiting_desk
      ≡ (ok (record { status = 200; body = to_session_key_view pending_key }), waiting_desk))
    × ((k : SessionKey) × (get_key
            (codes "sk_1")
            (submit_authorize chain
              (codes "t_1")
              (codes "sk_1")
              (codes "0xsigned")
              (revoke_session_key caller call (codes "sk_1") [] waiting_desk).1.store).1.keys
          ≡ some k)
        × (k.status ≡ active))
unfolding get_key role_allows key_row
pending_key_survives_example =
    pending_key_survives caller call (codes "sk_1") [] (codes "0xsigned") (codes "0xhash")
      pending_key waiting_desk chain refl refl refl refl refl refl refl refl refl refl
