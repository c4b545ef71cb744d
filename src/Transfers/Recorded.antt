-- ===== src/Transfers/Recorded.antt =====
-- What `recordTransaction` keeps of a transfer (internal/server/handlers/wallet_group_tx.go).
use atara_pay.Base.{◌≡◌, refl, none, List, [], ◌∷◌, Text, codes, Result, err}
use atara_pay.Http.{Caller}
use atara_pay.Transfers.{SendTransactionRequest, TransactionView, to_tx_view, or_empty}
use atara_pay.Transfers.Plane.{
  Artifact, RailCall, crossmint_create, tempo_transfer, Outside, Circumstances,
}
use atara_pay.Transfers.Rows.{Transaction, pgx_text}
use atara_pay.Transfers.Send.{Grant, sent_row}

-- What the rail answers to a call.
abbrev pub rail_answer : Outside → RailCall → List RailCall → Result Text Artifact
rail_answer out (crossmint_create order locator) calls = out.create calls order locator
rail_answer out (tempo_transfer key order) calls = out.transfer calls key order
rail_answer out call calls = err []

-- The row of a transfer, column by column, and the answer that shows it.
pub record IsRowOf (caller : Caller) (now : Circumstances) (grant : Grant)
    (req : SendTransactionRequest) (artifact : Artifact) (stored : Text) (row : Transaction)
    (view : TransactionView) : Type 0 where
  pub id : row.id ≡ now.new_id
  pub tenant_id : row.tenant_id ≡ caller.tenant_id
  pub wallet_id : row.wallet_id ≡ grant.wallet.id
  pub group_id : row.group_id ≡ grant.group.id
  pub rail : row.rail ≡ grant.wallet.rail
  pub chain : row.chain ≡ grant.wallet.chain
  pub direction : row.direction ≡ codes "outbound"
  pub counterparty : row.counterparty ≡ req.to
  pub amount : row.amount ≡ stored
  pub asset : row.asset ≡ req.asset
  pub status : row.status ≡ artifact.status
  pub tx_hash : row.tx_hash ≡ pgx_text artifact.tx_hash
  pub provider_tx_id : row.provider_tx_id ≡ pgx_text artifact.id
  pub session_key_id : row.session_key_id ≡ pgx_text grant.signer_id
  pub initiated_by_apikey : row.initiated_by_apikey ≡ pgx_text caller.api_key_id
  pub idempotency_key : row.idempotency_key ≡ pgx_text req.idempotency_key
  pub metadata : row.metadata ≡ none
  pub created_at : row.created_at ≡ now.now
  pub confirmed_at : row.confirmed_at ≡ none
  pub shown_id : view.id ≡ now.new_id
  pub shown_rail : view.rail ≡ grant.wallet.rail
  pub shown_chain : view.chain ≡ grant.wallet.chain
  pub shown_status : view.status ≡ artifact.status
  pub shown_from : view.from ≡ grant.wallet.id
  pub shown_to : view.to ≡ req.to
  pub shown_amount : view.amount ≡ stored
  pub shown_asset : view.asset ≡ req.asset
  pub shown_tx_hash : view.tx_hash ≡ artifact.tx_hash
  pub shown_provider_tx_id : view.provider_tx_id ≡ artifact.id
  pub shown_created_at : view.created_at ≡ now.now

-- A column that is null for a blank text.
or_empty-pgx_text : (t : Text) → or_empty (pgx_text t) ≡ t
or_empty-pgx_text [] = refl
or_empty-pgx_text (c ∷ t) = refl

pub sent_row-IsRowOf :
    (caller : Caller) (now : Circumstances) (grant : Grant) (req : SendTransactionRequest)
    (artifact : Artifact) (amount : Text)
    → IsRowOf caller now grant req artifact amount
        (sent_row caller now grant req artifact amount)
        (to_tx_view (sent_row caller now grant req artifact amount))
unfolding sent_row to_tx_view
sent_row-IsRowOf caller now grant req artifact amount = record {
  id = refl;
  tenant_id = refl;
  wallet_id = refl;
  group_id = refl;
  rail = refl;
  chain = refl;
  direction = refl;
  counterparty = refl;
  amount = refl;
  asset = refl;
  status = refl;
  tx_hash = refl;
  provider_tx_id = refl;
  session_key_id = refl;
  initiated_by_apikey = refl;
  idempotency_key = refl;
  metadata = refl;
  created_at = refl;
  confirmed_at = refl;
  shown_id = refl;
  shown_rail = refl;
  shown_chain = refl;
  shown_status = refl;
  shown_from = refl;
  shown_to = refl;
  shown_amount = refl;
  shown_asset = refl;
  shown_tx_hash = or_empty-pgx_text artifact.tx_hash;
  shown_provider_tx_id = or_empty-pgx_text artifact.id;
  shown_created_at = refl;
}
