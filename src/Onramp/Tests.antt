-- ===== src/Onramp/Tests.antt =====
-- Concrete runs of the on-ramp.

use atara_pay.Base.{◌≡◌, refl, true, false, some, List, [], ◌∷◌, ◌++◌, codes, ok, err}
use atara_pay.Http.{Caller, Failure, Reply, and_then, guard, need, attempt}
use atara_pay.Http.Post.{Post}
use atara_pay.Transfers.Rows.{WalletGroup, Wallet, get_wallet_group, get_wallet_by_rail}
use atara_pay.Transfers.Tests.{group, wallet_on}
use atara_pay.Onramp.{
  CreateOnrampRequest, OnrampCall, OnrampOrderView, Visit, validate_onramp, map_onramp_status,
  status_of_phase, to_onramp_view, order_of_key, order_insertable, onramp_wallet, onramp_target,
}
use atara_pay.Onramp.Create.{
  Provider, Till, call_for, place_order, order_row, record_onramp, create_onramp_order,
  announce_onramp, create_onramp,
}
use atara_pay.Onramp.Orders.{IsOrdered, IsRefused, create_onramp-Post}
use atara_pay.Onramp.Retries.{OnrampOp, serve_onramps, create_onramp_again}

-- A provider that takes every order; letters are left as they are.
abbrev open_provider : Provider
open_provider = record {
  create_order = λ calls call.
      ok (record {
        id = codes "o_1";
        status = codes "checkout-ready";
        checkout_url = codes "https";
      });
  to_upper = λ s. s;
  to_lower = λ s. s;
  to_numeric = λ s. some s;
}

abbrev visit : Visit
visit = record {
  configured = true;
  now = 100;
  new_id = codes "ord_1";
  group_query_fails = false;
  wallet_query_fails = false;
  insert_fails = false;
  publisher_wired = true;
}

abbrev caller : Caller
caller = record { tenant_id = codes "t_1"; user_id = []; role = []; api_key_id = codes "k_1" }

abbrev fifty : CreateOnrampRequest
fifty = record {
  fiat = record { amount = codes "50"; currency = codes "USD" };
  asset = codes "USDC";
  chain = [];
  idempotency_key = codes "once";
}

abbrev groups : List WalletGroup
groups = group ∷ []

abbrev wallets : List Wallet
wallets = wallet_on (codes "crossmint") (codes "platform") ∷ []

abbrev empty_till : Till
empty_till = record { orders = []; calls = []; announced = [] }

abbrev fifty_view : Reply OnrampOrderView
fifty_view = record {
  status = 201;
  body = record {
    id = codes "ord_1";
    status = codes "checkout_opened";
    provider = codes "crossmint";
    wallet_id = codes "w_1";
    fiat_amount = codes "50";
    fiat_currency = codes "USD";
    asset = codes "USDC";
    chain = codes "base";
    checkout_url = codes "https";
    provider_order_id = codes "o_1";
  };
}

create_onramp-Post_example :
    Post
      (IsOrdered groups wallets caller visit (codes "g_1") open_provider fifty empty_till)
      (IsRefused groups wallets caller visit (codes "g_1") open_provider fifty empty_till)
      (create_onramp open_provider groups wallets caller visit (codes "g_1") fifty empty_till)
create_onramp-Post_example =
    create_onramp-Post groups wallets caller visit (codes "g_1") open_provider fifty empty_till

-- Another key is used in between.
abbrev others : List OnrampOp
others =
    record {
      caller = caller;
      visit = record visit { new_id = codes "ord_2" };
      group_id = codes "g_1";
      req = record fifty { idempotency_key = codes "twice" };
    }
    ∷ []

create_onramp_again_example :
    (call : OnrampCall) × ((create_onramp open_provider groups wallets caller visit
        (codes "g_1")
        fifty
        empty_till).1.calls
      ≡ [] ++ call ∷ [])
    × (f : Failure) × (t : Till) × (create_onramp open_provider groups wallets caller
          (record visit { now = 900; new_id = codes "ord_3" })
          (codes "g_1")
          fifty
          (serve_onramps open_provider groups wallets others
            (create_onramp open_provider groups wallets caller visit
              (codes "g_1")
              fifty
              empty_till).1)
        ≡ (err f, t))
    × (t.orders
        ≡ (serve_onramps open_provider groups wallets others
            (create_onramp open_provider groups wallets caller visit
              (codes "g_1")
              fifty
              empty_till).1).orders)
    × (t.calls
        ≡ (serve_onramps open_provider groups wallets others
            (create_onramp open_provider groups wallets caller visit
              (codes "g_1")
              fifty
              empty_till).1).calls
          ++ call ∷ [])
unfolding create_onramp onramp_target onramp_wallet validate_onramp get_wallet_group
    get_wallet_by_rail and_then attempt need guard place_order call_for record_onramp
    create_onramp_order order_row order_insertable order_of_key map_onramp_status status_of_phase
    announce_onramp to_onramp_view
create_onramp_again_example =
    create_onramp_again open_provider groups wallets caller visit (codes "g_1") fifty empty_till
      fifty_view others 900 (codes "ord_3") refl refl
