-- ===== src/Onramp/Orders.antt =====
-- What a request for an on-ramp order does (internal/server/handlers/wallet_group_onramp.go).
use mathlib.Core.Path.{subst}
use atara_pay.Base.{
  ◌+◌, past_check, is_on, ◌≡◌, refl, sym, ap, ◌∙◌, Option, none, ok-injective, ◌>>=◌, ◌⊎◌, inl, inr,
  true, false, not, some, List, [], ◌∷◌, ◌++◌, Text, codes, text_eq, is_nil, Result, ok, err,
}
use atara_pay.Http.{Caller, Failure, Reply, bad_request, not_found}
use atara_pay.Transfers.Authorised.{answered}
use atara_pay.Http.Post.{Post, ok-Post, guard-Post, need-Post, attempt-Post, bind-Post, state-Post}
use atara_pay.Transfers.Rows.{WalletGroup, Wallet, pgx_text, get_wallet_group, get_wallet_by_rail}
use atara_pay.Transfers.Plane.{unless_fails}
use atara_pay.Onramp.{
  CreateOnrampRequest, ProviderOrder, OnrampOrder, OnrampOrderView, OnrampCall, Visit,
  or_empty_text, map_onramp_status, found, in_request, validate_onramp, to_onramp_view,
  onramp_wallet, onramp_target,
}
use atara_pay.Onramp.Create.{
  Provider, Till, chain_or, call_for, place_order, order_row, record_onramp, create_onramp_order,
  announce_onramp, create_onramp,
}

-- The wallet that an order may pay into.
pub record IsTarget (groups : List WalletGroup) (wallets : List Wallet) (caller : Caller)
    (group_id : Text) (group : WalletGroup) (wallet : Wallet) : Type 0 where
  pub group_found : get_wallet_group group_id groups ≡ some group
  pub group_owned : text_eq group.tenant_id caller.tenant_id ≡ true
  pub wallet_found : get_wallet_by_rail group.id (codes "crossmint") wallets ≡ some wallet
  pub wallet_ours : text_eq wallet.custody (codes "user") ≡ false

or_empty-pgx_text : (t : Text) → or_empty_text (pgx_text t) ≡ t
or_empty-pgx_text [] = refl
or_empty-pgx_text (c ∷ t) = refl

-- A step that succeeds, read backwards.
past_found :
    {A B : Type 0} (o : Option A) (e : Failure) (f : A → Result Failure B) (b : B)
    → (found o e >>= f) ≡ ok b
    → (a : A) × (o ≡ some a) × (f a ≡ ok b)
past_found none e f b h = absurd (cc)
past_found (some a) e f b h = (a, refl, h)

past_validation :
    {B : Type 0} (r : Result Text (Unit {0})) (f : Unit {0} → Result Failure B) (b : B)
    → (in_request r >>= f) ≡ ok b
    → (u : Unit {0}) × (f u ≡ ok b)
past_validation (ok u) f b h = (u, h)
past_validation (err e) f b h = absurd (cc)

module _ (groups : List WalletGroup) (wallets : List Wallet) (caller : Caller) (visit : Visit)
    (group_id : Text) where
  onramp_wallet-found :
      (owner group : WalletGroup) (wallet : Wallet)
      → onramp_wallet groups wallets visit owner ≡ ok (group, wallet)
      → (owner ≡ group)
        × (get_wallet_by_rail owner.id (codes "crossmint") wallets ≡ some wallet)
        × (text_eq wallet.custody (codes "user") ≡ false)
  unfolding onramp_wallet
  onramp_wallet-found owner group wallet h =
      let (w, read, k) = past_found _ _ _ _ h in
      let (ours, same) = past_check _ _ _ _ k in
      let pair : ◌≡◌ {A = WalletGroup × Wallet} (owner, w) (group, wallet) =
        ok-injective _ _ same in
      (
        ap (λ p. p.0) pair,
        answered _ _ _ read ∙ ap (λ p. some p.1) pair,
        ap (λ p. text_eq p.1.custody (codes "user")) (sym pair) ∙ ours,
      )

  onramp_target-IsTarget :
      (req : CreateOnrampRequest) (group : WalletGroup) (wallet : Wallet)
      → onramp_target groups wallets caller visit group_id req ≡ ok (group, wallet)
      → IsTarget groups wallets caller group_id group wallet
  unfolding onramp_target
  onramp_target-IsTarget req group wallet h =
      let (known, h1) =
        past_check (is_nil caller.tenant_id) (bad_request (codes "missing tenant context")) _ _ h in
      let (named, h2) =
        past_check (is_nil group_id) (bad_request (codes "missing group id")) _ _ h1 in
      let (u, h3) = past_validation (validate_onramp req) _ _ h2 in
      let (owner, read, h4) =
        past_found (unless_fails visit.group_query_fails (get_wallet_group group_id groups))
          (not_found (codes "wallet group not found")) _ _ h3 in
      let (own, h5) =
        past_check (not (text_eq owner.tenant_id caller.tenant_id))
          (not_found (codes "wallet group not found")) _ _ h4 in
      let (configured, h6) =
        past_check (not visit.configured)
          (record { status = 503; error = codes "onramp is not enabled on this gateway" }) _ _ h5 in
      let (same, held, ours) = onramp_wallet-found owner group wallet h6 in
      record {
        group_found = answered visit.group_query_fails _ _ read ∙ ap some same;
        group_owned = ap (λ g. text_eq g.tenant_id caller.tenant_id) (sym same) ∙ is_on _ own;
        wallet_found =
            ap (λ g. get_wallet_by_rail g.id (codes "crossmint") wallets) (sym same) ∙ held;
        wallet_ours = ours;
      }

  module _ (lib : Provider) (req : CreateOnrampRequest) (s : Till) where
    -- The call that orders what was asked for, into the wallet.
    pub record IsOrderFor (wallet : Wallet) (call : OnrampCall) : Type 0 where
      pub for_wallet : call.wallet_id ≡ wallet.id
      pub to_address : call.wallet_address ≡ wallet.address
      pub fiat_asked : call.fiat.amount ≡ req.fiat.amount
      pub currency_asked : call.fiat.currency ≡ lib.to_upper req.fiat.currency
      pub asset_asked : call.asset ≡ req.asset
      pub chain_asked : call.chain ≡ chain_or wallet req

    pub IsOrderFor-call_for :
        (wallet : Wallet) (call : OnrampCall)
        → IsOrderFor wallet call
        → call ≡ call_for lib wallet req
    unfolding call_for
    IsOrderFor-call_for wallet call h = λ i. record {
      wallet_id = h.for_wallet i;
      fiat = record { amount = h.fiat_asked i; currency = h.currency_asked i };
      asset = h.asset_asked i;
      chain = h.chain_asked i;
      wallet_address = h.to_address i;
    }

    -- What was ordered and answered, column by column, and the answer that shows it.
    pub record IsRowOf (group : WalletGroup) (wallet : Wallet) (order : ProviderOrder)
        (stored : Text) (row : OnrampOrder) (view : OnrampOrderView) : Type 0 where
      pub id : row.id ≡ visit.new_id
      pub tenant_id : row.tenant_id ≡ caller.tenant_id
      pub wallet_id : row.wallet_id ≡ wallet.id
      pub of_group : row.group_id ≡ group.id
      pub provider : row.provider ≡ codes "crossmint"
      pub provider_order_id : row.provider_order_id ≡ pgx_text order.id
      pub checkout_url : row.checkout_url ≡ pgx_text order.checkout_url
      pub fiat_amount : row.fiat_amount ≡ stored
      pub fiat_currency : row.fiat_currency ≡ lib.to_upper req.fiat.currency
      pub asset : row.asset ≡ req.asset
      pub chain : row.chain ≡ chain_or wallet req
      pub status : row.status ≡ map_onramp_status lib.to_lower order.status
      pub initiated_by_apikey : row.initiated_by_apikey ≡ pgx_text caller.api_key_id
      pub idempotency_key : row.idempotency_key ≡ pgx_text req.idempotency_key
      pub expires_at : row.expires_at ≡ some (visit.now + 1_800_000_000_000)
      pub shown_id : view.id ≡ visit.new_id
      pub shown_status : view.status ≡ map_onramp_status lib.to_lower order.status
      pub shown_provider : view.provider ≡ codes "crossmint"
      pub shown_wallet_id : view.wallet_id ≡ wallet.id
      pub shown_fiat_amount : view.fiat_amount ≡ stored
      pub shown_fiat_currency : view.fiat_currency ≡ lib.to_upper req.fiat.currency
      pub shown_asset : view.asset ≡ req.asset
      pub shown_chain : view.chain ≡ chain_or wallet req
      pub shown_checkout_url : view.checkout_url ≡ order.checkout_url
      pub shown_provider_order_id : view.provider_order_id ≡ order.id

    order_row-IsRowOf :
        (group : WalletGroup) (wallet : Wallet) (order : ProviderOrder) (stored : Text)
        → IsRowOf group wallet order stored
            (order_row lib caller visit group wallet req order stored)
            (to_onramp_view (order_row lib caller visit group wallet req order stored))
    unfolding order_row to_onramp_view
    order_row-IsRowOf group wallet order stored = record {
      id = refl;
      tenant_id = refl;
      wallet_id = refl;
      of_group = refl;
      provider = refl;
      provider_order_id = refl;
      checkout_url = refl;
      fiat_amount = refl;
      fiat_currency = refl;
      asset = refl;
      chain = refl;
      status = refl;
      initiated_by_apikey = refl;
      idempotency_key = refl;
      expires_at = refl;
      shown_id = refl;
      shown_status = refl;
      shown_provider = refl;
      shown_wallet_id = refl;
      shown_fiat_amount = refl;
      shown_fiat_currency = refl;
      shown_asset = refl;
      shown_chain = refl;
      shown_checkout_url = or_empty-pgx_text order.checkout_url;
      shown_provider_order_id = or_empty-pgx_text order.id;
    }

    call_for-IsOrderFor : (wallet : Wallet) → IsOrderFor wallet (call_for lib wallet req)
    unfolding call_for
    call_for-IsOrderFor wallet = record {
      for_wallet = refl;
      to_address = refl;
      fiat_asked = refl;
      currency_asked = refl;
      asset_asked = refl;
      chain_asked = refl;
    }

    -- A request that succeeds: its target, the order that the provider made of it, the row that
    -- was added, and the answer.
    pub record IsOrdered (answer : Reply OnrampOrderView) (t : Till) : Type 0 where
      pub group : WalletGroup
      pub wallet : Wallet
      pub order : ProviderOrder
      pub amount : Text
      pub admitted : onramp_target groups wallets caller visit group_id req ≡ ok (group, wallet)
      pub target : IsTarget groups wallets caller group_id group wallet
      pub call : OnrampCall
      pub call_for_it : IsOrderFor wallet call
      pub placed : lib.create_order s.calls call ≡ ok order
      pub read : lib.to_numeric req.fiat.amount ≡ some amount
      pub calls : t.calls ≡ s.calls ++ call ∷ []
      pub row : OnrampOrder
      pub row_of : IsRowOf group wallet order amount row answer.body
      pub orders : t.orders ≡ row ∷ s.orders
      pub status : answer.status ≡ 201

    -- A request that fails: nothing was stored or announced, and at most one call was made, for a
    -- wallet that the caller may use.
    abbrev pub IsRefused : Till → Type 0
    IsRefused t =
        (t.orders ≡ s.orders)
        × (t.announced ≡ s.announced)
        × ((t.calls ≡ s.calls)
            ⊎ ((group : WalletGroup) × (wallet : Wallet) × IsTarget groups wallets caller group_id
                  group wallet
                × (call : OnrampCall) × IsOrderFor wallet call
                × (t.calls ≡ s.calls ++ call ∷ [])))

    -- What recording an order leaves.
    abbrev IsRecorded : WalletGroup → Wallet → ProviderOrder → Till → OnrampOrder → Till → Type 0
    IsRecorded group wallet order t row t' =
        (amount : Text) × (lib.to_numeric req.fiat.amount ≡ some amount)
        × (row ≡ order_row lib caller visit group wallet req order amount)
        × (t'.orders ≡ row ∷ t.orders)
        × (t'.calls ≡ t.calls)

    record_onramp-Post :
        (group : WalletGroup) (wallet : Wallet) (order : ProviderOrder) (t : Till)
        → IsRefused t
        → Post
            (IsRecorded group wallet order t)
            IsRefused
            (record_onramp lib caller visit group wallet req order t)
    unfolding record_onramp create_onramp_order
    record_onramp-Post group wallet order t refused = need-Post _ _ refused λ amount read.
        state-Post _ (guard-Post _ _ refused λ free. ok-Post (amount, read, refl, refl, refl))

    -- A request for an on-ramp order that succeeds has placed one order with CrossMint, paid into
    -- an active wallet of CrossMint under platform custody, in a group of the caller's tenant, and
    -- has added one row with what was ordered and with the id, the checkout page and the status that
    -- CrossMint has answered, which the answer shows. One that fails has stored and announced nothing, and placed at most one order, for such a wallet.
    pub create_onramp-Post :
        Post IsOrdered IsRefused (create_onramp lib groups wallets caller visit group_id req s)
    unfolding create_onramp place_order announce_onramp
    create_onramp-Post =
        attempt-Post _ _ (refl, refl, inl refl)
          λ (group, wallet) admitted.
            let target = onramp_target-IsTarget req group wallet admitted in
            let refused : IsRefused (record s { calls = s.calls ++ call_for lib wallet req ∷ [] }) =
              (
                refl,
                refl,
                inr (
                  group,
                  wallet,
                  target,
                  call_for lib wallet req,
                  call_for-IsOrderFor wallet,
                  refl,
                ),
              ) in
            attempt-Post _ _ refused λ order placed.
              bind-Post _ (record_onramp-Post group wallet order _ refused)
                λ row t (amount, read, written, added, called). ok-Post (record {
                  group = group;
                  wallet = wallet;
                  order = order;
                  amount = amount;
                  admitted = admitted;
                  target = target;
                  call = call_for lib wallet req;
                  call_for_it = call_for-IsOrderFor wallet;
                  placed = placed;
                  read = read;
                  calls = called;
                  row = row;
                  row_of =
                      subst (λ r. IsRowOf group wallet order amount r (to_onramp_view r))
                        (sym written) (order_row-IsRowOf group wallet order amount);
                  orders = added;
                  status = refl;
                })
