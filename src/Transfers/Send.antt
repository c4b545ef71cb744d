-- ===== src/Transfers/Send.antt =====
-- `SendTransaction` with its dispatchers and `recordTransaction`
-- (internal/server/handlers/wallet_group_tx.go).
use atara_pay.Base.{
  Bool, ◌&&◌, not, none, some, [], ◌∷◌, ◌++◌, Text, codes, text_eq, is_nil, Result, ok, err,
  if◌then◌else◌,
}
use atara_pay.Http.{
  Caller, Failure, Reply, Handler, ◌>>=◌, ◌>>◌, reply, guard, need, attempt, with_tenant,
  bad_request, not_found, unprocessable, forbidden, internal_error, upstream_error,
}
use atara_pay.Limits.Counter.{Redis}
use atara_pay.Limits.Policy.{Querier, CheckRequest, Std, CheckError, has_expired}
use atara_pay.Limits.Service.{World, CheckResult, check}
use atara_pay.SessionKeys.Rows.{SessionKey, get_key, is_active}
use atara_pay.Webhooks.Store.{ResourceRefs}
use atara_pay.Transfers.{
  SendTransactionRequest, Rail, crossmint, tempo, rail_name, validate_send_tx, route_rail,
  event_type_for_tx_status, TransactionView, to_tx_view,
}
use atara_pay.Transfers.Plane.{
  Order, Artifact, RailCall, crossmint_create, tempo_transfer, Outside, Directory, Parts,
  Circumstances, unless_fails, Announcement, Plane,
}
use atara_pay.Transfers.Rows.{
  WalletGroup, Wallet, Transaction, pgx_text, get_wallet_group, get_wallet_by_rail, insertable,
}

-- What the guards have found: the rows that the transfer is for.
pub record Grant : Type 0 where
  pub group : WalletGroup
  pub rail : Rail
  pub wallet : Wallet
  pub signer_id : Text

-- The order of either dispatcher.
abbrev pub order_of : Wallet → Text → SendTransactionRequest → Order
order_of w chain req = record {
  from = w.address;
  to = req.to;
  amount = req.amount;
  asset = req.asset;
  chain = chain;
}

-- The request of the limit gate.
unfoldable pub check_request : Text → Grant → SendTransactionRequest → CheckRequest
check_request tenant grant req = record {
  tenant_id = tenant;
  wallet_id = grant.wallet.id;
  session_key_id = grant.signer_id;
  amount = req.amount;
  asset = req.asset;
  recipient = req.to;
  transaction_id = [];
}

abbrev pub user_custody : Failure
user_custody = record {
  status = 501;
  error = codes "user-custody wallet requires client-side signing";
}

abbrev pub limit_exceeded : Failure
limit_exceeded = record { status = 429; error = codes "spending limit exceeded" }

abbrev pub not_recorded : Failure
not_recorded = record {
  status = 500;
  error = codes "internal error recording transaction (rail call succeeded)";
}

-- The guards on the session key that `signer_id` names.
abbrev pub key_fits : Text → Wallet → SessionKey → Bool
key_fits tenant wallet k =
    text_eq k.tenant_id tenant && text_eq k.wallet_id wallet.id && is_active k.status

-- The row of `recordTransaction`.
unfoldable pub sent_row :
    Caller → Circumstances → Grant → SendTransactionRequest → Artifact → Text → Transaction
sent_row caller now grant req artifact amount = record {
  id = now.new_id;
  tenant_id = caller.tenant_id;
  wallet_id = grant.wallet.id;
  group_id = grant.group.id;
  rail = grant.wallet.rail;
  chain = grant.wallet.chain;
  direction = codes "outbound";
  counterparty = req.to;
  amount = amount;
  asset = req.asset;
  status = artifact.status;
  tx_hash = pgx_text artifact.tx_hash;
  provider_tx_id = pgx_text artifact.id;
  session_key_id = pgx_text grant.signer_id;
  initiated_by_apikey = pgx_text caller.api_key_id;
  idempotency_key = pgx_text req.idempotency_key;
  metadata = none;
  created_at = now.now;
  confirmed_at = none;
}

module _ (std : Std) (r : Redis) where
  -- What the gate makes of the answer of `Check`.
  unfoldable pub settle :
      Result CheckError CheckResult × World std r
      → Plane std r
      → Result Failure (Unit {0}) × Plane std r
  settle (err e, w) s = (err internal_error, record s { world = w })
  settle (ok result, w) s =
      (if result.allowed then ok tt else err limit_exceeded, record s { world = w })

  -- A call that moves money, and its answer.
  abbrev pub call_rail : RailCall → Result Text Artifact → Handler (Plane std r) Artifact
  call_rail call answer s =
      attempt answer upstream_error (record s { rail_calls = s.rail_calls ++ call ∷ [] })

  -- `CreateTransaction`: the row as it is stored.
  unfoldable pub create_transaction :
      Bool → Transaction → Failure → Handler (Plane std r) Transaction
  create_transaction fails row failure s =
      if not fails && insertable row s.transactions
      then (ok row, record s { transactions = row ∷ s.transactions })
      else (err failure, s)

module _ (std : Std) (r : Redis) (out : Outside) (q : Querier) (dir : Directory)
    (parts : Parts) where
  -- The resolution of the optional session key.
  unfoldable pub resolve_signer :
      Caller → Circumstances → Wallet → SendTransactionRequest → Handler (Plane std r) Text
  resolve_signer caller now wallet req = if is_nil req.signer_id then (λ s. (ok [], s)) else do
    key ←
        need (unless_fails now.key_query_fails (get_key req.signer_id dir.session_keys))
          (forbidden (codes "signer_id is not a valid active session key for this wallet"))
    guard (key_fits caller.tenant_id wallet key)
        (forbidden (codes "signer_id is not a valid active session key for this wallet"))
    guard (not (has_expired (some key.expires_at) now.now))
        (forbidden (codes "session key expired"))
    (λ s. (ok key.id, s))

  -- `SendTransaction` up to the limit gate.
  unfoldable pub authorise :
      Caller → Circumstances → Text → SendTransactionRequest → Handler (Plane std r) Grant
  authorise caller now group_id req = do
    with_tenant caller
    guard (not (is_nil group_id)) (bad_request (codes "missing group id"))
    attempt (validate_send_tx req) bad_request
    group ←
        need (unless_fails now.group_query_fails (get_wallet_group group_id dir.groups))
          (not_found (codes "wallet group not found"))
    guard (text_eq group.tenant_id caller.tenant_id) (not_found (codes "wallet group not found"))
    rail ← attempt (route_rail out.to_upper req) bad_request
    wallet ←
        need
          (unless_fails now.wallet_query_fails
            (get_wallet_by_rail group.id (rail_name rail) dir.wallets))
          (unprocessable (codes "group has no active wallet"))
    guard (not (text_eq wallet.custody (codes "user"))) user_custody
    signer ← resolve_signer caller now wallet req
    (λ s. (ok (record { group = group; rail = rail; wallet = wallet; signer_id = signer }), s))

  -- The limit gate.
  unfoldable pub limit_gate :
      Text → Circumstances → Grant → SendTransactionRequest → Handler (Plane std r) (Unit {0})
  limit_gate tenant now grant req s =
      if parts.limits_wired
      then settle std r
          (check std r q parts.wiring (check_request tenant grant req) now.check_clock s.world) s
      else (ok tt, s)

  -- `sendViaCrossMint`
  unfoldable pub send_via_crossmint :
      Wallet → SendTransactionRequest → Handler (Plane std r) Artifact
  send_via_crossmint w req s =
      let order = order_of w w.chain req in
      call_rail std r (crossmint_create order w.provider_locator)
        (out.create s.rail_calls order w.provider_locator) s

  -- `sendViaTempo`, once the key is decrypted.
  abbrev pub transfer_with_key :
      Wallet → SendTransactionRequest → Text → Handler (Plane std r) Artifact
  transfer_with_key w req key s =
      let order = order_of w (codes "tempo") req in
      call_rail std r (tempo_transfer key order) (out.transfer s.rail_calls key order) s

  -- `sendViaTempo`
  unfoldable pub send_via_tempo : Wallet → SendTransactionRequest → Handler (Plane std r) Artifact
  send_via_tempo w req = do
    guard (not (is_nil w.encrypted_private_key))
        (upstream_error (codes "tempo wallet row has no encrypted key (schema invariant violated)"))
    version ←
        need w.key_version (
          upstream_error
            (codes "tempo wallet row has no encrypted key (schema invariant violated)"))
    key ←
        need (out.decrypt w.encrypted_private_key version)
          (upstream_error (codes "keystore decrypt"))
    transfer_with_key w req key

  -- The dispatch by rail. The source's default branch has no rail left to take it.
  unfoldable pub dispatch : Rail → Wallet → SendTransactionRequest → Handler (Plane std r) Artifact
  dispatch crossmint w req = send_via_crossmint w req
  dispatch tempo w req = send_via_tempo w req

  -- `recordTransaction`
  unfoldable pub record_transaction :
      Caller
      → Circumstances
      → Grant
      → SendTransactionRequest
      → Artifact
      → Handler (Plane std r) Transaction
  record_transaction caller now grant req artifact = do
    amount ← need (out.to_numeric req.amount) not_recorded
    create_transaction std r now.insert_fails (sent_row caller now grant req artifact amount)
        not_recorded

  -- `publish`, and the answer.
  unfoldable pub announce :
      Caller → Grant → Transaction → Handler (Plane std r) (Reply TransactionView)
  announce caller grant row s =
      let refs : ResourceRefs = record {
        wallet_id = grant.wallet.id;
        group_id = grant.group.id;
        transaction_id = row.id;
        onramp_order_id = [];
        session_key_id = grant.signer_id;
      } in
      let event : Announcement = record {
        tenant_id = caller.tenant_id;
        event_type = event_type_for_tx_status row.status;
        data_of = to_tx_view row;
        refs = refs;
      } in
      reply 201 (to_tx_view row) (record s {
        announced = if parts.publisher_wired then s.announced ++ event ∷ [] else s.announced;
      })

  -- `SendTransaction`, after the body is parsed.
  unfoldable pub send_transaction :
      Caller
      → Circumstances
      → Text
      → SendTransactionRequest
      → Handler (Plane std r) (Reply TransactionView)
  send_transaction caller now group_id req = do
    grant ← authorise caller now group_id req
    limit_gate caller.tenant_id now grant req
    artifact ← dispatch grant.rail grant.wallet req
    row ← record_transaction caller now grant req artifact
    announce caller grant row
