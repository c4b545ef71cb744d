-- ===== src/Accounts/Rows.antt =====
-- The tables that the handlers of wallet groups read and write (internal/db/sqlcgen/
-- wallet_groups.sql.go, wallets.sql.go), what a request meets, and the rows of a new group.
use atara_pay.Base.{
  ℕ, Bool, ◌&&◌, not, Option, none, some, List, [], ◌∷◌, ◌++◌, Text, codes, text_eq, is_nil, first,
  Result, if◌then◌else◌,
}
use atara_pay.Http.{Caller}
use atara_pay.Transfers.Rows.{WalletGroup, Wallet, pgx_text, is_none}
use atara_pay.Accounts.{CreateGroupRequest, GroupView}

-- The tables, and the owners for which wallets have been ordered from CrossMint.
pub record Accounts : Type 0 where
  pub groups : List WalletGroup
  pub wallets : List Wallet
  pub ordered : List Text
  pub announced : List GroupView

-- What one request meets. CrossMint, where the gateway has it, answers an address and a locator;
-- `meanwhile` is what other requests commit before the transaction begins.
pub record Setting : Type 0 where
  pub crossmint : Option (List Text → Text → Text → Result Text (Text × Text))
  pub crossmint_chain_default : Text
  pub keypair : Option (Text × Text)
  pub encrypt : Text → Option (Text × ℕ)
  pub meanwhile : Accounts → Accounts
  pub group_id : Text
  pub crossmint_wallet_id : Text
  pub tempo_wallet_id : Text
  pub lookup_fails : Bool
  pub list_fails : Bool
  pub begin_fails : Bool
  pub group_insert_fails : Bool
  pub winner_query_fails : Bool
  pub wallet_insert_fails : Bool
  pub commit_fails : Bool
  pub publisher_wired : Bool

-- The addresses that a new group gets.
pub record Addresses : Type 0 where
  pub crossmint : Option (Text × Text)
  pub tempo : Option Text
  pub key : Option (Text × ℕ)

-- `GetWalletGroupByOwnerRef`
unfoldable pub get_by_owner_ref : Text → Text → List WalletGroup → Option WalletGroup
get_by_owner_ref tenant ref =
    first (λ g. text_eq g.tenant_id tenant && (text_eq g.owner_ref ref && is_none g.deleted_at))

-- `ListWalletsByGroup`, before the sort by rail.
unfoldable pub wallets_of_group : Text → List Wallet → List Wallet
wallets_of_group group [] = []
wallets_of_group group (w ∷ rows) =
    let rest = wallets_of_group group rows in
    if text_eq w.group_id group && not (text_eq w.status (codes "deleted")) then w ∷ rest else rest

-- UNIQUE (tenant_id, owner_ref), which a deleted group holds too; new ids do not clash.
unfoldable pub group_insertable : WalletGroup → List WalletGroup → Bool
group_insertable g rows =
    is_none (first (λ h. text_eq h.tenant_id g.tenant_id && text_eq h.owner_ref g.owner_ref) rows)

-- A lookup in a Go map.
unfoldable pub address_for : Text → List (Text × Text) → Option Text
address_for rail [] = none
address_for rail ((r, a) ∷ rest) =
    let later = address_for rail rest in if text_eq r rail then some a else later

-- The custody that is stored.
abbrev pub is_user : CreateGroupRequest → Bool
is_user req = text_eq req.custody (codes "user")

abbrev pub custody_of : CreateGroupRequest → Text
custody_of req = if is_user req then codes "user" else codes "platform"

abbrev pub chain_of : Setting → CreateGroupRequest → Text
chain_of env req =
    if is_nil req.crossmint_chain then env.crossmint_chain_default else req.crossmint_chain

-- The row of the group.
unfoldable pub group_row : Caller → Setting → CreateGroupRequest → WalletGroup
group_row caller env req = record {
  id = env.group_id;
  tenant_id = caller.tenant_id;
  owner_type = req.owner_type;
  owner_ref = req.owner_ref;
  parent_group_id = pgx_text req.parent_group_id;
  custody = custody_of req;
  display_name = pgx_text req.display_name;
  deleted_at = none;
}

abbrev pub crossmint_row : WalletGroup → Setting → Text → Option (Text × Text) → List Wallet
crossmint_row g env chain none = []
crossmint_row g env chain (some (address, locator)) =
    record {
      id = env.crossmint_wallet_id;
      group_id = g.id;
      tenant_id = g.tenant_id;
      rail = codes "crossmint";
      chain = chain;
      address = address;
      provider_locator = locator;
      custody = g.custody;
      encrypted_private_key = [];
      key_version = none;
      status = codes "active";
    }
    ∷ []

abbrev pub blob_of : Option (Text × ℕ) → Text
blob_of none = []
blob_of (some (blob, version)) = blob

abbrev pub version_of : Option (Text × ℕ) → Option ℕ
version_of none = none
version_of (some (blob, version)) = some version

abbrev pub tempo_row : WalletGroup → Setting → Option (Text × ℕ) → Option Text → List Wallet
tempo_row g env key none = []
tempo_row g env key (some address) =
    record {
      id = env.tempo_wallet_id;
      group_id = g.id;
      tenant_id = g.tenant_id;
      rail = codes "tempo";
      chain = codes "tempo";
      address = address;
      provider_locator = address;
      custody = g.custody;
      encrypted_private_key = blob_of key;
      key_version = version_of key;
      status = codes "active";
    }
    ∷ []

-- The wallets of a new group.
unfoldable pub wallet_rows : WalletGroup → Setting → Text → Addresses → List Wallet
wallet_rows g env chain a = crossmint_row g env chain a.crossmint ++ tempo_row g env a.key a.tempo

-- `ListWalletGroupsInTenant`, before LIMIT and OFFSET; the rows are newest first.
unfoldable pub groups_of_tenant : Text → List WalletGroup → List WalletGroup
groups_of_tenant tenant [] = []
groups_of_tenant tenant (g ∷ rows) =
    let rest = groups_of_tenant tenant rows in
    if text_eq g.tenant_id tenant && is_none g.deleted_at then g ∷ rest else rest
