-- ===== src/Transfers/Prepare.antt =====
-- `PrepareTransaction` and `SubmitTransaction`: transfers that the client signs
-- (internal/server/handlers/wallet_group_tx_prepare.go).
use atara_pay.Base.{
  ℕ, ◌+◌, Bool, false, ◌&&◌, not, Option, none, some, List, [], ◌∷◌, ◌++◌, Text, codes, text_eq,
  is_nil, Result, ok, err, if◌then◌else◌,
}
use atara_pay.Http.{
  Caller, Failure, Reply, Handler, ◌>>=◌, ◌>>◌, reply, guard, need, attempt, get_state, with_tenant,
  bad_request, not_found, unprocessable, conflict, internal_error, upstream_error,
}
use atara_pay.Limits.Calendar.{Time, after}
use atara_pay.Limits.Counter.{Redis}
use atara_pay.Limits.Policy.{Std}
use atara_pay.Transfers.{PrepareTransactionRequest, validate_prepare_tx}
use atara_pay.Transfers.Rows.{
  WalletGroup, Wallet, UnsignedTransfer, PreparedTxMetadata, Transaction, pgx_text,
  get_wallet_group, get_wallet_by_rail, get_transaction, get_transaction_by_key, update_transaction,
  set_status,
}
use atara_pay.Transfers.Plane.{
  Order, tempo_broadcast, Outside, Directory, Circumstances, unless_fails, Plane,
}
use atara_pay.Transfers.Send.{create_transaction}

-- The fields of both answers; `unsigned` and `expires_at` are those of the metadata, if it has any.
pub record PreparedTxView : Type 0 where
  pub prepare_id : Text
  pub wallet_id : Text
  pub group_id : Text
  pub rail : Text
  pub asset : Text
  pub amount : Text
  pub to : Text
  pub unsigned : Option UnsignedTransfer
  pub status : Text
  pub expires_at : Text
  pub created_at : Time

pub record SubmitTransactionRequest : Type 0 where
  pub prepare_id : Text
  pub signed_tx_hex : Text

-- `preparedTTL`: 15 minutes in nanoseconds.
abbrev pub prepared_ttl : ℕ
prepared_ttl = 900_000_000_000

abbrev pub unsigned_of : Option PreparedTxMetadata → Option UnsignedTransfer
unsigned_of none = none
unsigned_of (some meta) = some meta.unsigned

abbrev pub expiry_of : Option PreparedTxMetadata → Text
expiry_of none = []
expiry_of (some meta) = meta.expires_at

-- `preparedRowToView`, which has no error.
unfoldable pub prepared_row_to_view : Transaction → PreparedTxView
prepared_row_to_view row = record {
  prepare_id = row.id;
  wallet_id = row.wallet_id;
  group_id = row.group_id;
  rail = row.rail;
  asset = row.asset;
  amount = row.amount;
  to = row.counterparty;
  unsigned = unsigned_of row.metadata;
  status = row.status;
  expires_at = expiry_of row.metadata;
  created_at = row.created_at;
}

abbrev pub is_prepared : Transaction → Bool
is_prepared row = text_eq row.status (codes "prepared")

-- The row that an idempotency key replays.
abbrev pub replayable : Option Transaction → Option Transaction
replayable none = none
replayable (some row) = if is_prepared row then some row else none

abbrev pub past : Time → Option Time → Bool
past now none = false
past now (some t) = after now t

abbrev pub submit_error : Text → ℕ → Failure
submit_error error status = record { status = status; error = error }

-- The fields of the answer of `SubmitTransaction`.
pub record SubmittedView : Type 0 where
  pub row : Transaction
  pub rail_tx_hash : Text

module _ (std : Std) (r : Redis) (out : Outside) where
  -- The expiry test of `SubmitTransaction`.
  unfoldable pub has_lapsed : Time → Transaction → Bool
  has_lapsed now row =
      let text = expiry_of row.metadata in not (is_nil text) && past now (out.parse_rfc3339 text)

  -- The row that `PrepareTransaction` inserts.
  unfoldable pub prepared_row :
      Caller
      → Circumstances
      → WalletGroup
      → Wallet
      → PrepareTransactionRequest
      → UnsignedTransfer
      → Text
      → Transaction
  prepared_row caller now group wallet req built amount = record {
    id = now.new_id;
    tenant_id = caller.tenant_id;
    wallet_id = wallet.id;
    group_id = group.id;
    rail = codes "tempo";
    chain = codes "tempo";
    direction = codes "outbound";
    counterparty = req.to;
    amount = amount;
    asset = out.to_upper req.asset;
    status = codes "prepared";
    tx_hash = none;
    provider_tx_id = none;
    session_key_id = none;
    initiated_by_apikey = none;
    idempotency_key = pgx_text req.idempotency_key;
    metadata = some (record {
      unsigned = built;
      memo = req.memo;
      expires_at = std.rfc3339 (now.now + prepared_ttl);
    });
    created_at = now.now;
    confirmed_at = none;
  }

  -- The replay of an idempotency key.
  unfoldable pub replay :
      Caller → Circumstances → PrepareTransactionRequest → List Transaction → Option Transaction
  replay caller now req rows =
      if is_nil req.idempotency_key
      then none
      else replayable (
          unless_fails now.replay_query_fails
            (get_transaction_by_key caller.tenant_id (pgx_text req.idempotency_key) rows))

  -- The part of `PrepareTransaction` that builds a new row.
  unfoldable pub prepare_new :
      Caller
      → Circumstances
      → WalletGroup
      → Wallet
      → PrepareTransactionRequest
      → Handler (Plane std r) (Reply PreparedTxView)
  prepare_new caller now group wallet req = do
    let order : Order = record {
      from = wallet.address;
      to = req.to;
      amount = req.amount;
      asset = out.to_upper req.asset;
      chain = codes "tempo";
    }
    built ← attempt (out.build wallet.address order) upstream_error
    amount ← need (out.to_numeric req.amount) internal_error
    row ←
        create_transaction std r now.insert_fails
          (prepared_row caller now group wallet req built amount) internal_error
    reply 201 (prepared_row_to_view row)

  abbrev pub answer_replay :
      Option Transaction
      → Handler (Plane std r) (Reply PreparedTxView)
      → Handler (Plane std r) (Reply PreparedTxView)
  answer_replay (some row) new = reply 200 (prepared_row_to_view row)
  answer_replay none new = new

  -- `PrepareTransaction`, after the body is parsed.
  unfoldable pub prepare_transaction :
      Directory
      → Caller
      → Circumstances
      → Text
      → PrepareTransactionRequest
      → Handler (Plane std r) (Reply PreparedTxView)
  prepare_transaction dir caller now group_id req = do
    with_tenant caller
    guard (not (is_nil group_id)) (bad_request (codes "missing group id"))
    attempt (validate_prepare_tx req) bad_request
    group ←
        need (unless_fails now.group_query_fails (get_wallet_group group_id dir.groups))
          (not_found (codes "wallet group not found"))
    guard (text_eq group.tenant_id caller.tenant_id) (not_found (codes "wallet group not found"))
    wallet ←
        need
          (unless_fails now.wallet_query_fails
            (get_wallet_by_rail group.id (codes "tempo") dir.wallets))
          (unprocessable (codes "group has no active tempo wallet"))
    guard (text_eq wallet.custody (codes "user"))
        (bad_request (codes "prepare endpoint is for user-custody wallets only"))
    (λ s.
        answer_replay (replay caller now req s.transactions)
          (prepare_new caller now group wallet req) s)

  -- `UpdateTransactionStatus`: the row as it is after the update.
  unfoldable pub update_transaction_status :
      Bool → Text → Text → Option Text → Time → Handler (Plane std r) Transaction
  update_transaction_status fails id status hash now s =
      let rows = update_transaction id (set_status status hash now) s.transactions in
      if fails
      then (err internal_error, s)
      else need (get_transaction id rows) internal_error (record s { transactions = rows })

  -- The end of `SubmitTransaction`: what is done with the answer of the rail.
  unfoldable pub conclude :
      Circumstances → Transaction → Result Text Text → Handler (Plane std r) (Reply SubmittedView)
  conclude now row (err e) s = (
    err (upstream_error e),
    (update_transaction_status now.update_fails row.id (codes "failed") none now.now s).1,
  )
  conclude now row (ok hash) s =
      (do
        updated ←
            update_transaction_status now.update_fails row.id (codes "broadcast") (pgx_text hash)
              now.now
        reply 200 (record { row = updated; rail_tx_hash = hash }))
        s

  -- `BroadcastSignedTx` on the signed bytes, and what follows.
  unfoldable pub broadcast_signed :
      Circumstances → Transaction → Text → Handler (Plane std r) (Reply SubmittedView)
  broadcast_signed now row signed s =
      conclude now row (out.broadcast s.rail_calls signed)
        (record s { rail_calls = s.rail_calls ++ tempo_broadcast signed ∷ [] })

  -- The row that `SubmitTransaction` loads.
  abbrev pub load_prepared : Circumstances → Text → Plane std r → Option Transaction
  load_prepared now id s = unless_fails now.row_query_fails (get_transaction id s.transactions)

  -- `SubmitTransaction`, after the body is parsed.
  unfoldable pub submit_transaction :
      Caller
      → Circumstances
      → Text
      → SubmitTransactionRequest
      → Handler (Plane std r) (Reply SubmittedView)
  submit_transaction caller now group_id req = do
    with_tenant caller
    guard (not (is_nil group_id)) (bad_request (codes "missing group id"))
    guard (not (is_nil req.prepare_id) && not (is_nil req.signed_tx_hex))
        (bad_request (codes "prepare_id and signed_tx_hex are required"))
    s ← get_state
    row ←
        need (load_prepared now req.prepare_id s)
          (not_found (codes "prepared transaction not found"))
    guard (text_eq row.tenant_id caller.tenant_id && text_eq row.group_id group_id)
        (not_found (codes "prepared transaction not found"))
    guard (is_prepared row) (conflict (codes "submit only valid for 'prepared'"))
    guard (not (has_lapsed now.now row))
        (submit_error (codes "prepared transaction expired; re-prepare to refresh nonce/gas") 410)
    broadcast_signed now row req.signed_tx_hex
