-- ===== src/Accounts/Tests.antt =====
-- Concrete runs of the wallet groups.
use atara_pay.Base.{◌≡◌, refl, false, true, none, List, [], ◌∷◌, Text, codes, trim_space, ok}
use atara_pay.Http.{Caller, Reply, and_then, guard, need, attempt}
use atara_pay.Accounts.{
  CreateGroupRequest, GroupView, validate_create_group, check_custody, check_addresses,
  to_group_view,
}
use atara_pay.Accounts.Rows.{
  Accounts, Setting, get_by_owner_ref, group_insertable, group_row, wallet_rows, address_for,
}
use atara_pay.Accounts.Create.{
  user_addresses, insert_group, create_new, create_trimmed, create_group,
}
use atara_pay.Accounts.Create.Kept.{CreateOp, serve_creates}
use atara_pay.Accounts.Create.Reuse.{create_group_again}

abbrev merchant : CreateGroupRequest
merchant = record {
  owner_type = codes "merchant";
  owner_ref = codes "shop";
  parent_group_id = [];
  display_name = [];
  crossmint_chain = [];
  custody = codes "user";
  external_addresses = (codes "tempo", codes "0xabc") ∷ [];
}

abbrev merchant_spaced : CreateGroupRequest
merchant_spaced = record merchant { owner_ref = codes " shop " }

abbrev setting : Text → Setting
setting id = record {
  crossmint = none;
  crossmint_chain_default = codes "base";
  keypair = none;
  encrypt = λ p. none;
  meanwhile = λ s. s;
  group_id = id;
  crossmint_wallet_id = codes "w_1";
  tempo_wallet_id = codes "w_2";
  lookup_fails = false;
  list_fails = false;
  begin_fails = false;
  group_insert_fails = false;
  winner_query_fails = false;
  wallet_insert_fails = false;
  commit_fails = false;
  publisher_wired = false;
}

abbrev tenant : Caller
tenant = record { tenant_id = codes "t_1"; user_id = []; role = []; api_key_id = codes "k_1" }

abbrev empty : Accounts
empty = record { groups = []; wallets = []; ordered = []; announced = [] }

abbrev created : Reply GroupView
created = record {
  status = 201;
  body = record {
    id = codes "g_1";
    tenant_id = codes "t_1";
    owner_type = codes "merchant";
    owner_ref = codes "shop";
    parent_group_id = [];
    custody = codes "user";
    display_name = [];
    wallets =
        record {
          id = codes "w_2";
          rail = codes "tempo";
          chain = codes "tempo";
          address = codes "0xabc";
          custody = codes "user";
          provider_locator = codes "0xabc";
          status = codes "active";
        }
        ∷ [];
    reused = false;
  };
}

-- Another company takes the same reference in between, and the caller uses another key.
abbrev others : List CreateOp
others =
    record {
      caller = record tenant { tenant_id = codes "t_2" };
      env = setting (codes "g_3");
      req = merchant;
    }
    ∷ []

abbrev after_first : Accounts
after_first = (create_group tenant (setting (codes "g_1")) merchant empty).1

create_group_again_example :
    (again : Reply GroupView) × (create_group
        (record tenant { api_key_id = codes "k_2" })
        (setting (codes "g_2"))
        merchant_spaced
        (serve_creates others after_first)
      ≡ (ok again, serve_creates others after_first))
    × (again.body.id ≡ created.body.id)
    × (again.body.reused ≡ true)
unfolding create_group create_trimmed create_new and_then guard need attempt validate_create_group
    check_custody check_addresses get_by_owner_ref group_insertable user_addresses insert_group
    to_group_view group_row wallet_rows address_for trim_space
create_group_again_example =
    create_group_again tenant (record tenant { api_key_id = codes "k_2" }) (setting (codes "g_1"))
      (setting (codes "g_2")) merchant merchant_spaced empty created others refl
      (λ owner ref g s h. h, tt) refl refl refl refl refl refl
