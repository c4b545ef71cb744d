-- ===== src/Accounts.antt =====
-- Wallet groups: requests, checks and views (internal/server/handlers/wallet_groups.go).
pub mod Rows
pub mod Create
pub mod Read
mod Tests
use atara_pay.Base.{
  ℕ, Bool, true, false, ◌&&◌, ◌||◌, not, Option, none, some, List, [], ◌∷◌, map, Text, codes,
  text_eq, is_nil, any, ltb, byte_length, Result, ok, err, if◌then◌else◌,
}
use atara_pay.Transfers.Rows.{WalletGroup, Wallet}

-- `ExternalAddresses` is a map: its entries in the order in which the loop meets them.
pub record CreateGroupRequest : Type 0 where
  pub owner_type : Text
  pub owner_ref : Text
  pub parent_group_id : Text
  pub display_name : Text
  pub crossmint_chain : Text
  pub custody : Text
  pub external_addresses : List (Text × Text)

pub record WalletView : Type 0 where
  pub id : Text
  pub rail : Text
  pub chain : Text
  pub address : Text
  pub custody : Text
  pub provider_locator : Text
  pub status : Text

pub record GroupView : Type 0 where
  pub id : Text
  pub tenant_id : Text
  pub owner_type : Text
  pub owner_ref : Text
  pub parent_group_id : Text
  pub custody : Text
  pub display_name : Text
  pub wallets : List WalletView
  pub reused : Bool

abbrev pub owner_types : List Text
owner_types = codes "user" ∷ codes "agent" ∷ codes "merchant" ∷ codes "treasury" ∷ []

-- The loop over the external addresses; the errors leave out the rail that they name.
unfoldable pub check_addresses : List (Text × Text) → Result Text (Unit {0})
check_addresses [] = ok tt
check_addresses ((rail, addr) ∷ rest) =
    let later = check_addresses rest in
    if not (text_eq rail (codes "tempo") || text_eq rail (codes "crossmint"))
    then err (codes "external_addresses: unsupported rail")
    else if is_nil addr
    then err (codes "external_addresses: address is empty")
    else if ltb 200 (byte_length addr)
    then err (codes "external_addresses: address too long")
    else later

-- The switch on the custody.
unfoldable pub check_custody : CreateGroupRequest → Result Text (Unit {0})
check_custody r =
    if is_nil r.custody || text_eq r.custody (codes "platform")
    then if is_nil r.external_addresses
      then ok tt
      else err (codes "external_addresses only valid when custody=\"user\"")
    else if text_eq r.custody (codes "user")
    then if is_nil r.external_addresses
      then err (codes "external_addresses is required when custody=\"user\"")
      else check_addresses r.external_addresses
    else err (codes "custody must be one of \"platform\" (default), \"user\"")

-- `validateCreateGroup`
unfoldable pub validate_create_group : CreateGroupRequest → Result Text (Unit {0})
validate_create_group r =
    if not (any (text_eq r.owner_type) owner_types)
    then err (codes "owner.type must be one of \"user\", \"agent\", \"merchant\", \"treasury\"")
    else if is_nil r.owner_ref
    then err (codes "owner.ref is required")
    else if ltb 200 (byte_length r.owner_ref)
    then err (codes "owner.ref too long")
    else if text_eq r.owner_type (codes "agent") && is_nil r.parent_group_id
    then err (codes "parent_group_id is required when owner.type is 'agent'")
    else check_custody r

abbrev pub or_blank : Option Text → Text
or_blank none = []
or_blank (some s) = s

abbrev pub to_wallet_view : Wallet → WalletView
to_wallet_view w = record {
  id = w.id;
  rail = w.rail;
  chain = w.chain;
  address = w.address;
  custody = w.custody;
  provider_locator = w.provider_locator;
  status = w.status;
}

-- `toGroupViewWithReuse`, without the time of creation.
unfoldable pub to_group_view : WalletGroup → List Wallet → Bool → GroupView
to_group_view g wallets reused = record {
  id = g.id;
  tenant_id = g.tenant_id;
  owner_type = g.owner_type;
  owner_ref = g.owner_ref;
  parent_group_id = or_blank g.parent_group_id;
  custody = g.custody;
  display_name = or_blank g.display_name;
  wallets = map to_wallet_view wallets;
  reused = reused;
}
