-- ===== src/Onramp/Create.antt =====
-- `CreateOnramp` and `recordOnramp` (internal/server/handlers/wallet_group_onramp.go).
use atara_pay.Base.{
  ◌+◌, Bool, ◌&&◌, not, Option, some, List, [], ◌∷◌, ◌++◌, Text, codes, is_nil, Result, ok,
  if◌then◌else◌,
}
use atara_pay.Http.{
  Caller, Failure, Reply, Handler, ◌>>=◌, ◌>>◌, reply, guard, need, attempt, get_state,
  upstream_error,
}
use atara_pay.Webhooks.Store.{ResourceRefs}
use atara_pay.Transfers.Rows.{WalletGroup, Wallet, pgx_text}
use atara_pay.Onramp.{
  CreateOnrampRequest, OnrampCall, ProviderOrder, OnrampOrder, OnrampOrderView, Visit,
  map_onramp_status, to_onramp_view, order_insertable, onramp_target,
}

-- The adapter of CrossMint, whose answer may depend on the calls made before; upper and lower
-- case; and the text of a NUMERIC, `none` where it is none.
pub record Provider : Type 0 where
  pub create_order : List OnrampCall → OnrampCall → Result Text ProviderOrder
  pub to_upper : Text → Text
  pub to_lower : Text → Text
  pub to_numeric : Text → Option Text

-- The event "onramp.created", as it is handed to `Publish`.
pub record OnrampCreated : Type 0 where
  pub tenant_id : Text
  pub data_of : OnrampOrderView
  pub refs : ResourceRefs

-- The table, the calls of the adapter in order, and what was announced.
pub record Till : Type 0 where
  pub orders : List OnrampOrder
  pub calls : List OnrampCall
  pub announced : List OnrampCreated

abbrev pub chain_or : Wallet → CreateOnrampRequest → Text
chain_or wallet req = if is_nil req.chain then wallet.chain else req.chain

-- The failure after a call that the provider has taken.
abbrev pub not_recorded : Failure
not_recorded = record {
  status = 500;
  error = codes "internal error recording onramp order (provider call succeeded)";
}

-- `CreateOnrampOrder` of the table.
unfoldable pub create_onramp_order : Bool → OnrampOrder → Handler Till OnrampOrder
create_onramp_order fails row = do
  s ← get_state
  guard (not fails && order_insertable row s.orders) not_recorded
  (λ s. (ok row, record s { orders = row ∷ s.orders }))

module _ (lib : Provider) where
  unfoldable pub call_for : Wallet → CreateOnrampRequest → OnrampCall
  call_for wallet req = record {
    wallet_id = wallet.id;
    fiat = record { amount = req.fiat.amount; currency = lib.to_upper req.fiat.currency };
    asset = req.asset;
    chain = chain_or wallet req;
    wallet_address = wallet.address;
  }

  -- The call of the adapter.
  unfoldable pub place_order : OnrampCall → Handler Till ProviderOrder
  place_order call s =
      attempt (lib.create_order s.calls call)
        (λ e. upstream_error (codes "crossmint rail returned an error"))
        (record s { calls = s.calls ++ call ∷ [] })

  -- The row of `recordOnramp`; a checkout expires after 30 minutes.
  unfoldable pub order_row :
      Caller
      → Visit
      → WalletGroup
      → Wallet
      → CreateOnrampRequest
      → ProviderOrder
      → Text
      → OnrampOrder
  order_row caller visit group wallet req order amount = record {
    id = visit.new_id;
    tenant_id = caller.tenant_id;
    wallet_id = wallet.id;
    group_id = group.id;
    provider = codes "crossmint";
    provider_order_id = pgx_text order.id;
    checkout_url = pgx_text order.checkout_url;
    fiat_amount = amount;
    fiat_currency = lib.to_upper req.fiat.currency;
    asset = req.asset;
    chain = chain_or wallet req;
    status = map_onramp_status lib.to_lower order.status;
    initiated_by_apikey = pgx_text caller.api_key_id;
    idempotency_key = pgx_text req.idempotency_key;
    expires_at = some (visit.now + 1_800_000_000_000);
  }

  -- `recordOnramp`
  unfoldable pub record_onramp :
      Caller
      → Visit
      → WalletGroup
      → Wallet
      → CreateOnrampRequest
      → ProviderOrder
      → Handler Till OnrampOrder
  record_onramp caller visit group wallet req order = do
    amount ← need (lib.to_numeric req.fiat.amount) not_recorded
    create_onramp_order visit.insert_fails (order_row caller visit group wallet req order amount)

  -- `publish`, and the answer.
  unfoldable pub announce_onramp :
      Caller → Visit → WalletGroup → Wallet → OnrampOrder → Handler Till (Reply OnrampOrderView)
  announce_onramp caller visit group wallet row s =
      let event : OnrampCreated = record {
        tenant_id = caller.tenant_id;
        data_of = to_onramp_view row;
        refs = record {
          wallet_id = wallet.id;
          group_id = group.id;
          transaction_id = [];
          onramp_order_id = row.id;
          session_key_id = [];
        };
      } in
      reply 201 (to_onramp_view row) (record s {
        announced = if visit.publisher_wired then s.announced ++ event ∷ [] else s.announced;
      })

  -- `CreateOnramp`, after the body is parsed.
  unfoldable pub create_onramp :
      List WalletGroup
      → List Wallet
      → Caller
      → Visit
      → Text
      → CreateOnrampRequest
      → Handler Till (Reply OnrampOrderView)
  create_onramp groups wallets caller visit group_id req = do
    target ← attempt (onramp_target groups wallets caller visit group_id req) (λ e. e)
    order ← place_order (call_for target.1 req)
    row ← record_onramp caller visit target.0 target.1 req order
    announce_onramp caller visit target.0 target.1 row
