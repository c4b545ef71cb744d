-- ===== src/Onramp.antt =====
-- Purchases of crypto for fiat money (internal/server/handlers/wallet_group_onramp.go): requests,
-- checks, views and the table of orders (internal/db/sqlcgen/onramp_orders.sql.go).
pub mod Create
pub mod Orders
pub mod Retries
mod Tests
use atara_pay.Base.{
  ◌==◌, Bool, ◌&&◌, ◌||◌, not, Option, none, some, List, [], ◌∷◌, Text, codes, text_eq, is_nil,
  first, any, Result, ok, err, ◌>>=◌, if◌then◌else◌,
}
use atara_pay.Limits.Calendar.{Time}
use atara_pay.Http.{Caller, Failure, bad_request, not_found, unprocessable}
use atara_pay.Transfers.Rows.{
  WalletGroup, Wallet, pgx_text, is_none, sql_eq, get_wallet_group, get_wallet_by_rail,
}
use atara_pay.Transfers.Plane.{unless_fails}

pub record FiatAmount : Type 0 where
  pub amount : Text
  pub currency : Text

pub record CreateOnrampRequest : Type 0 where
  pub fiat : FiatAmount
  pub asset : Text
  pub chain : Text
  pub idempotency_key : Text

-- A call of `CreateOnrampOrder` of the adapter: its request and the address of the wallet.
pub record OnrampCall : Type 0 where
  pub wallet_id : Text
  pub fiat : FiatAmount
  pub asset : Text
  pub chain : Text
  pub wallet_address : Text

-- What the handler reads of the adapter's answer.
pub record ProviderOrder : Type 0 where
  pub id : Text
  pub status : Text
  pub checkout_url : Text

-- A row of `onramp_orders`: the columns that the handler writes.
pub record OnrampOrder : Type 0 where
  pub id : Text
  pub tenant_id : Text
  pub wallet_id : Text
  pub group_id : Text
  pub provider : Text
  pub provider_order_id : Option Text
  pub checkout_url : Option Text
  pub fiat_amount : Text
  pub fiat_currency : Text
  pub asset : Text
  pub chain : Text
  pub status : Text
  pub initiated_by_apikey : Option Text
  pub idempotency_key : Option Text
  pub expires_at : Option Time

-- `OnrampOrderView`, without the times.
pub record OnrampOrderView : Type 0 where
  pub id : Text
  pub status : Text
  pub provider : Text
  pub wallet_id : Text
  pub fiat_amount : Text
  pub fiat_currency : Text
  pub asset : Text
  pub chain : Text
  pub checkout_url : Text
  pub provider_order_id : Text

-- What one request meets. `configured` is that the gateway has a CrossMint adapter.
pub record Visit : Type 0 where
  pub configured : Bool
  pub now : Time
  pub new_id : Text
  pub group_query_fails : Bool
  pub wallet_query_fails : Bool
  pub insert_fails : Bool
  pub publisher_wired : Bool

-- `validateOnramp`
unfoldable pub validate_onramp : CreateOnrampRequest → Result Text (Unit {0})
validate_onramp r =
    if is_nil r.fiat.amount
    then err (codes "fiat.amount is required")
    else if is_nil r.fiat.currency
    then err (codes "fiat.currency is required")
    else if is_nil r.asset
    then err (codes "asset is required")
    else ok tt

-- `strings.ReplaceAll(provider, "-", "_")`
abbrev pub underscored : Text → Text
underscored [] = []
underscored (c ∷ s) = (if c == b'-' then b'_' else c) ∷ underscored s

-- The cases of `mapOnrampStatus`, on a phase in lower case.
unfoldable pub status_of_phase : Text → Text
status_of_phase p =
    if text_eq p (codes "checkout_ready") || text_eq p (codes "awaiting_payment")
    then codes "checkout_opened"
    else if text_eq p (codes "paid")
    then codes "paid"
    else if text_eq p (codes "delivering")
    then codes "delivering"
    else if text_eq p (codes "completed")
    then codes "completed"
    else if text_eq p (codes "failed")
    then codes "failed"
    else if text_eq p (codes "expired")
    then codes "expired"
    else codes "pending"

-- `mapOnrampStatus`, with `strings.ToLower`.
unfoldable pub map_onramp_status : (Text → Text) → Text → Text
map_onramp_status to_lower provider = status_of_phase (to_lower (underscored provider))

abbrev pub or_empty_text : Option Text → Text
or_empty_text none = []
or_empty_text (some s) = s

-- `toOnrampView`
unfoldable pub to_onramp_view : OnrampOrder → OnrampOrderView
to_onramp_view o = record {
  id = o.id;
  status = o.status;
  provider = o.provider;
  wallet_id = o.wallet_id;
  fiat_amount = o.fiat_amount;
  fiat_currency = o.fiat_currency;
  asset = o.asset;
  chain = o.chain;
  checkout_url = or_empty_text o.checkout_url;
  provider_order_id = or_empty_text o.provider_order_id;
}

-- The CHECK on `onramp_orders.status`.
abbrev pub onramp_statuses : List Text
onramp_statuses =
    codes "pending"
    ∷ codes "checkout_opened"
    ∷ codes "paid"
    ∷ codes "delivering"
    ∷ codes "completed"
    ∷ codes "failed"
    ∷ codes "expired"
    ∷ []

-- The row that holds a tenant's key in the unique index `idx_onramp_idempotency`.
unfoldable pub order_of_key : Text → Option Text → List OnrampOrder → Option OnrampOrder
order_of_key tenant key = first (λ o. text_eq o.tenant_id tenant && sql_eq o.idempotency_key key)

-- The primary key, the unique index and the CHECK on the status let the row in.
unfoldable pub order_insertable : OnrampOrder → List OnrampOrder → Bool
order_insertable o rows =
    is_none (first (λ r. text_eq r.id o.id) rows)
    && (is_none (order_of_key o.tenant_id o.idempotency_key rows)
        && any (text_eq o.status) onramp_statuses)

-- The outcome of a query.
abbrev pub found {ℓ} : {A : Type ℓ} → Option A → Failure → Result Failure A
found none e = err e
found (some a) e = ok a

abbrev pub in_request : Result Text (Unit {0}) → Result Failure (Unit {0})
in_request (ok unit) = ok unit
in_request (err e) = err (bad_request e)

module _ (groups : List WalletGroup) (wallets : List Wallet) where
  -- `CreateOnramp` from the lookup of the wallet up to the call of the adapter.
  unfoldable pub onramp_wallet : Visit → WalletGroup → Result Failure (WalletGroup × Wallet)
  onramp_wallet visit group = do
    wallet ←
        found
          (unless_fails visit.wallet_query_fails
            (get_wallet_by_rail group.id (codes "crossmint") wallets))
          (unprocessable (codes "group has no active CrossMint wallet (onramp unavailable)"))
    if text_eq wallet.custody (codes "user")
        then err (record {
          status = 501;
          error = codes "user-custody wallet: onramp into external address not yet supported";
        })
        else ok (group, wallet)

  -- `CreateOnramp` up to the call of the adapter, after the body is parsed.
  unfoldable pub onramp_target :
      Caller → Visit → Text → CreateOnrampRequest → Result Failure (WalletGroup × Wallet)
  onramp_target caller visit group_id req =
      if is_nil caller.tenant_id
      then err (bad_request (codes "missing tenant context"))
      else if is_nil group_id
      then err (bad_request (codes "missing group id"))
      else do
        valid ← in_request (validate_onramp req)
        group ←
            found (unless_fails visit.group_query_fails (get_wallet_group group_id groups))
              (not_found (codes "wallet group not found"))
        if not (text_eq group.tenant_id caller.tenant_id)
            then err (not_found (codes "wallet group not found"))
            else if not visit.configured
            then err
                (record { status = 503; error = codes "onramp is not enabled on this gateway" })
            else onramp_wallet visit group
