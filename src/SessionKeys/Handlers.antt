-- ===== src/SessionKeys/Handlers.antt =====
-- The handlers of session keys (internal/server/handlers/session_keys.go,
-- session_keys_user_custody.go) on the service of internal/sessionkey.
pub mod Over
pub mod Kept
pub mod Histories
pub mod Revocation
pub mod Pending
mod Tests
use atara_pay.Base.{
  ℕ, Bool, true, false, ◌&&◌, ◌||◌, not, Option, none, some, List, [], ◌∷◌, ◌++◌, map, Text, codes,
  text_eq, is_nil, Result, ok, err, if◌then◌else◌,
}
use mathlib.Core.List.{reverse}
use atara_pay.Base.Int.{ℤ}
use atara_pay.Http.{
  Caller, Failure, Reply, Handler, ◌>>=◌, ◌>>◌, reply, guard, need, attempt, get_state, with_tenant,
  with_role, bad_request, not_found, unprocessable, internal_error, upstream_error, page,
}
use atara_pay.Limits.Calendar.{Time}
use atara_pay.Transfers.Rows.{WalletGroup, Wallet, get_wallet_group, get_wallet_by_rail}
use atara_pay.Transfers.Plane.{unless_fails}
use atara_pay.Accounts.Rows.{wallets_of_group}
use atara_pay.SessionKeys.Rows.{
  KeyStatus, active, SessionKey, KeyStore, get_key, is_active, revoke_key,
}
use atara_pay.SessionKeys.Input.{MintError, MintInput, Minted, Ports, KeyRestrictions}
use atara_pay.SessionKeys.Mint.{mint}
use atara_pay.SessionKeys.Custody.{
  Prepared, prepare_user_custody, Chain, SubmitError, submit_authorize,
}
use atara_pay.SessionKeys.Requests.{
  CreateSessionKeyRequest, SessionKeyView, CreatedKey, validate_create_session_key,
  parse_session_caps, expiry_time, mint_input, to_session_key_view,
}

pub data KeyEvent : Type 0 where
  session_key_created session_key_revoked : SessionKeyView → KeyEvent

-- The tables of keys and policies, and what was announced.
pub record Desk : Type 0 where
  pub store : KeyStore
  pub announced : List KeyEvent

-- What one request meets. `reread_fails` is the query for the row after a mint or a submission.
pub record KeyCall : Type 0 where
  pub ports : Ports
  pub build : Text → Text → KeyRestrictions → Option Text
  pub chain : Chain
  pub parse_rfc3339 : Text → Option Time
  pub now : Time
  pub publisher_wired : Bool
  pub group_query_fails : Bool
  pub wallet_query_fails : Bool
  pub key_query_fails : Bool
  pub reread_fails : Bool
  pub update_fails : Bool
  pub list_fails : Bool

abbrev pub announce_key : KeyCall → KeyEvent → Handler Desk (Unit {0})
announce_key call event s = (
  ok tt,
  record s { announced = if call.publisher_wired then s.announced ++ event ∷ [] else s.announced },
)

-- The outcome of a mint: its tables are kept where it succeeds.
unfoldable pub keep_store : {A : Type 0} → Result MintError (A × KeyStore) → Handler Desk A
keep_store (ok (a, store)) s = (ok a, record s { store = store })
keep_store (err e) s = (err internal_error, s)

-- The row after a mint or a submission.
unfoldable pub reread : KeyCall → Text → Handler Desk SessionKey
reread call id s = need (unless_fails call.reread_fails (get_key id s.store.keys)) internal_error s

-- The end of either branch of `Create`.
unfoldable pub answer_created :
    KeyCall → Text → Text → Option Text → Handler Desk (Reply CreatedKey)
answer_created call id private_key unsigned = do
  row ← reread call id
  announce_key call (session_key_created (to_session_key_view row))
  reply 201 (record {
    view = to_session_key_view row;
    private_key = private_key;
    unsigned_authorize = unsigned;
  })

-- The end of `SubmitAuthorize`.
unfoldable pub answer_submitted :
    KeyCall → Text → Text → Handler Desk (Reply (SessionKeyView × Text))
answer_submitted call id hash = do
  row ← reread call id
  announce_key call (session_key_created (to_session_key_view row))
  reply 200 (to_session_key_view row, hash)

-- `createUserCustody`
unfoldable pub create_user_custody :
    KeyCall
    → Text
    → WalletGroup
    → Wallet
    → CreateSessionKeyRequest
    → Handler Desk (Reply CreatedKey)
create_user_custody call tenant group wallet req = do
  caps ← attempt (parse_session_caps req) bad_request
  expires ← attempt (expiry_time call.parse_rfc3339 req.expires_at) bad_request
  guard (text_eq wallet.rail (codes "tempo"))
      (bad_request (codes "user-custody session keys only supported on rail=tempo"))
  prepared ← (λ s.
      keep_store
        (prepare_user_custody call.ports call.build
          (mint_input tenant wallet.id group.id req caps expires false) s.store)
        s)
  answer_created call prepared.id prepared.private_key (some prepared.unsigned_authorize)

-- `Create` of a key for a wallet under platform custody.
unfoldable pub create_platform_custody :
    KeyCall
    → Text
    → Text
    → WalletGroup
    → Wallet
    → CreateSessionKeyRequest
    → Handler Desk (Reply CreatedKey)
create_platform_custody call tenant rail group wallet req = do
  caps ← attempt (parse_session_caps req) bad_request
  expires ← attempt (expiry_time call.parse_rfc3339 req.expires_at) bad_request
  guard (not (req.on_chain_enforce && not (text_eq rail (codes "tempo"))))
      (bad_request (codes "on_chain_enforce requires rail=tempo"))
  minted ← (λ s.
      keep_store
        (mint call.ports
          (mint_input tenant wallet.id group.id req caps expires req.on_chain_enforce) s.store)
        s)
  answer_created call minted.id minted.private_key none

abbrev pub rail_or_tempo : CreateSessionKeyRequest → Text
rail_or_tempo req = if is_nil req.rail then codes "tempo" else req.rail

-- The outcome of a submission.
abbrev pub as_submitted : Result SubmitError Text × KeyStore → Handler Desk Text
as_submitted (ok hash, store) s = (ok hash, record s { store = store })
as_submitted (err e, store) s =
    (err (upstream_error (codes "tempo rail returned an error")), record s { store = store })

-- `ListSessionKeysForWallet`, before the sort by `created_at` and the page.
unfoldable pub keys_of_wallet : Text → List SessionKey → List SessionKey
keys_of_wallet wallet [] = []
keys_of_wallet wallet (k ∷ rows) =
    let rest = keys_of_wallet wallet rows in if text_eq k.wallet_id wallet then k ∷ rest else rest

module _ (groups : List WalletGroup) (wallets : List Wallet) where
  -- The group of the caller's tenant.
  abbrev pub own_group : Caller → KeyCall → Text → Handler Desk WalletGroup
  own_group caller call id = do
    group ←
        need (unless_fails call.group_query_fails (get_wallet_group id groups))
          (not_found (codes "wallet group not found"))
    guard (text_eq group.tenant_id caller.tenant_id) (not_found (codes "wallet group not found"))
    (λ s. (ok group, s))

  -- `Create`, after the body is parsed.
  unfoldable pub create_session_key :
      Caller → KeyCall → Text → CreateSessionKeyRequest → Handler Desk (Reply CreatedKey)
  create_session_key caller call group_id req = do
    with_tenant caller
    guard (not (is_nil group_id)) (bad_request (codes "missing group id"))
    with_role caller (codes "your role cannot create session keys")
    attempt (validate_create_session_key req) bad_request
    group ← own_group caller call group_id
    wallet ←
        need
          (unless_fails call.wallet_query_fails
            (get_wallet_by_rail group.id (rail_or_tempo req) wallets))
          (unprocessable (codes "group has no active wallet"))
    if text_eq wallet.custody (codes "user")
        then create_user_custody call caller.tenant_id group wallet req
        else create_platform_custody call caller.tenant_id (rail_or_tempo req) group wallet req

  -- The loop of `List` over the wallets.
  unfoldable pub pages_of_wallets : ℤ → ℤ → List Wallet → List SessionKey → List SessionKey
  pages_of_wallets limit offset [] keys = []
  pages_of_wallets limit offset (w ∷ rest) keys =
      page limit offset (reverse (keys_of_wallet w.id keys))
      ++ pages_of_wallets limit offset rest keys

  -- `List`
  unfoldable pub list_session_keys :
      Caller → KeyCall → Text → ℤ → ℤ → Handler Desk (Reply (List SessionKeyView))
  list_session_keys caller call group_id limit offset = do
    with_tenant caller
    guard (not (is_nil group_id)) (bad_request (codes "missing group id"))
    group ← own_group caller call group_id
    guard (not call.list_fails) internal_error
    s ← get_state
    reply 200 (
        map to_session_key_view
          (pages_of_wallets limit offset (wallets_of_group group.id wallets) s.store.keys))

  -- `SubmitAuthorize`, after the body is parsed.
  unfoldable pub submit_key_authorize :
      Caller → KeyCall → Text → Text → Text → Handler Desk (Reply (SessionKeyView × Text))
  submit_key_authorize caller call group_id id signed = do
    with_tenant caller
    guard (not (is_nil group_id) && not (is_nil id))
        (bad_request (codes "missing group id or session key id"))
    guard (not (is_nil signed)) (bad_request (codes "signed_tx_hex is required"))
    group ← own_group caller call group_id
    hash ← (λ s. as_submitted (submit_authorize call.chain caller.tenant_id id signed s.store) s)
    answer_submitted call id hash

-- The update of `Revoke`, and what follows.
unfoldable pub revoke_active : KeyCall → Text → Text → Handler Desk (Reply SessionKeyView)
revoke_active call id reason s =
    let store = revoke_key id reason call.now s.store in
    (do
      guard (not call.update_fails) internal_error
      (λ s.
          (do
            row ← need (get_key id store.keys) internal_error
            announce_key call (session_key_revoked (to_session_key_view row))
            reply 200 (to_session_key_view row))
            (record s { store = store })))
      s

-- `Revoke`; the reason is empty where the body gives none.
unfoldable pub revoke_session_key :
    Caller → KeyCall → Text → Text → Handler Desk (Reply SessionKeyView)
revoke_session_key caller call id reason = do
  with_tenant caller
  with_role caller (codes "your role cannot revoke session keys")
  guard (not (is_nil id)) (bad_request (codes "missing session key id"))
  s ← get_state
  row ←
      need (unless_fails call.key_query_fails (get_key id s.store.keys))
        (not_found (codes "session key not found"))
  guard (text_eq row.tenant_id caller.tenant_id) (not_found (codes "session key not found"))
  if not (is_active row.status)
      then reply 200 (to_session_key_view row)
      else revoke_active call id (if is_nil reason then codes "manually revoked" else reason)
