-- ===== src/Transfers.antt =====
-- Transfers of wallet groups: requests, routing and views
-- (internal/server/handlers/wallet_group_tx.go).
pub mod Rows
pub mod Plane
pub mod Send
pub mod Prepare
pub mod Authorised
pub mod Recorded
pub mod Settled
pub mod Safety
pub mod Submitted
pub mod Lifecycle
pub mod Histories
pub mod Refinement
pub mod Tests
use atara_pay.Base.{
  ℕ, Bool, true, false, ◌&&◌, ◌||◌, Option, none, some, List, [], ◌∷◌, Text, codes, text_eq, is_nil,
  Result, ok, err, if◌then◌else◌,
}
use atara_pay.Limits.Calendar.{Time}
use atara_pay.Transfers.Rows.{Transaction}

pub record SendTransactionRequest : Type 0 where
  pub to : Text
  pub amount : Text
  pub asset : Text
  pub idempotency_key : Text
  pub rail : Text
  pub signer_id : Text

pub record PrepareTransactionRequest : Type 0 where
  pub to : Text
  pub amount : Text
  pub asset : Text
  pub memo : Text
  pub idempotency_key : Text

-- The rails that a transfer can take.
pub data Rail : Type 0 where
  crossmint tempo : Rail

abbrev pub rail_name : Rail → Text
rail_name crossmint = codes "crossmint"
rail_name tempo = codes "tempo"

-- The three tests that `validateSendTx` and `validatePrepareTx` share.
unfoldable pub require_fields : Text → Text → Text → Result Text (Unit {0})
require_fields to amount asset =
    if is_nil to
    then err (codes "to is required")
    else if is_nil amount
    then err (codes "amount is required")
    else if is_nil asset
    then err (codes "asset is required")
    else ok tt

-- `validateSendTx`
unfoldable pub validate_send_tx : SendTransactionRequest → Result Text (Unit {0})
validate_send_tx r = require_fields r.to r.amount r.asset

-- `validatePrepareTx`
unfoldable pub validate_prepare_tx : PrepareTransactionRequest → Result Text (Unit {0})
validate_prepare_tx r = require_fields r.to r.amount r.asset

-- `routeRail`, on `strings.ToUpper`; the texts of its errors are one each.
unfoldable pub route_rail : (Text → Text) → SendTransactionRequest → Result Text Rail
route_rail to_upper r =
    let asset = to_upper r.asset in
    if is_nil r.rail
    then if text_eq asset (codes "USDC") || text_eq asset (codes "USDT")
      then ok crossmint
      else if text_eq asset (codes "PATHUSD")
      then ok tempo
      else err (codes "no default rail for asset")
    else if text_eq r.rail (codes "crossmint")
    then ok crossmint
    else if text_eq r.rail (codes "tempo")
    then ok tempo
    else err (codes "unsupported rail override")

-- The two events of a transfer.
pub data TransferEvent : Type 0 where
  transaction_succeeded transaction_failed : TransferEvent

-- `eventTypeForTxStatus`
unfoldable pub event_type_for_tx_status : Text → TransferEvent
event_type_for_tx_status status =
    if text_eq status (codes "succeeded")
      || text_eq status (codes "pending")
      || text_eq status (codes "broadcast")
    then transaction_succeeded
    else transaction_failed

pub record TransactionView : Type 0 where
  pub id : Text
  pub rail : Text
  pub chain : Text
  pub status : Text
  pub from : Text
  pub to : Text
  pub amount : Text
  pub asset : Text
  pub tx_hash : Text
  pub provider_tx_id : Text
  pub created_at : Time

abbrev pub or_empty : Option Text → Text
or_empty none = []
or_empty (some s) = s

-- `toTxView`, with the time before it is printed.
unfoldable pub to_tx_view : Transaction → TransactionView
to_tx_view t = record {
  id = t.id;
  rail = t.rail;
  chain = t.chain;
  status = t.status;
  from = t.wallet_id;
  to = t.counterparty;
  amount = t.amount;
  asset = t.asset;
  tx_hash = or_empty t.tx_hash;
  provider_tx_id = or_empty t.provider_tx_id;
  created_at = t.created_at;
}
