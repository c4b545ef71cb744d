-- ===== src/Transfers/Rows.antt =====
-- The rows of wallet groups, wallets and transactions, and the statements on them
-- (internal/db/sqlcgen/models.go, wallet_groups.sql.go, wallets.sql.go, transactions.sql.go; the
-- constraints of internal/db/migrations).
use atara_pay.Base.{
  ℕ, Bool, true, false, ◌&&◌, ◌||◌, Option, none, some, List, [], ◌∷◌, Text, codes, text_eq, any,
  is_nil, first, if◌then◌else◌,
}
use atara_pay.Limits.Calendar.{Time}

pub record WalletGroup : Type 0 where
  pub id : Text
  pub tenant_id : Text
  pub owner_type : Text
  pub owner_ref : Text
  pub parent_group_id : Option Text
  pub custody : Text
  pub display_name : Option Text
  pub deleted_at : Option Time

pub record Wallet : Type 0 where
  pub id : Text
  pub group_id : Text
  pub tenant_id : Text
  pub rail : Text
  pub chain : Text
  pub address : Text
  pub provider_locator : Text
  pub custody : Text
  pub encrypted_private_key : Text
  pub key_version : Option ℕ
  pub status : Text

-- The unsigned call that a client signs.
pub record UnsignedTransfer : Type 0 where
  pub chain_id : ℕ
  pub nonce : ℕ
  pub to : Text
  pub value_hex : Text
  pub gas_limit : ℕ
  pub gas_price_hex : Text
  pub data_hex : Text
  pub raw_unsigned_hex : Text

pub record PreparedTxMetadata : Type 0 where
  pub unsigned : UnsignedTransfer
  pub memo : Text
  pub expires_at : Text

-- The columns that the transfers write; `metadata` is the JSON value, `none` for `{}`.
pub record Transaction : Type 0 where
  pub id : Text
  pub tenant_id : Text
  pub wallet_id : Text
  pub group_id : Text
  pub rail : Text
  pub chain : Text
  pub direction : Text
  pub counterparty : Text
  pub amount : Text
  pub asset : Text
  pub status : Text
  pub tx_hash : Option Text
  pub provider_tx_id : Option Text
  pub session_key_id : Option Text
  pub initiated_by_apikey : Option Text
  pub idempotency_key : Option Text
  pub metadata : Option PreparedTxMetadata
  pub created_at : Time
  pub confirmed_at : Option Time

-- `pgxText`
abbrev pub pgx_text : Text → Option Text
pgx_text s = if is_nil s then none else some s

abbrev pub is_none {ℓ} : {A : Type ℓ} → Option A → Bool
is_none none = true
is_none (some a) = false

-- `GetWalletGroupByID`
unfoldable pub get_wallet_group : Text → List WalletGroup → Option WalletGroup
get_wallet_group id = first (λ g. text_eq g.id id && is_none g.deleted_at)

-- `GetWalletByGroupAndRail`
unfoldable pub get_wallet_by_rail : Text → Text → List Wallet → Option Wallet
get_wallet_by_rail group rail =
    first
      (λ w. text_eq w.group_id group && text_eq w.rail rail && text_eq w.status (codes "active"))

-- `GetTransactionByID`
unfoldable pub get_transaction : Text → List Transaction → Option Transaction
get_transaction id = first (λ t. text_eq t.id id)

-- A SQL comparison: nothing equals NULL.
abbrev pub sql_eq : Option Text → Option Text → Bool
sql_eq (some a) (some b) = text_eq a b
sql_eq _ _ = false

-- `GetTransactionByIdempotencyKey`
unfoldable pub get_transaction_by_key : Text → Option Text → List Transaction → Option Transaction
get_transaction_by_key tenant key =
    first (λ t. text_eq t.tenant_id tenant && sql_eq t.idempotency_key key)

-- The CHECK on `transactions.status`.
abbrev pub statuses : List Text
statuses =
    codes "prepared"
    ∷ codes "pending"
    ∷ codes "broadcast"
    ∷ codes "succeeded"
    ∷ codes "failed"
    ∷ codes "cancelled"
    ∷ []

-- The primary key, the unique index on (tenant_id, idempotency_key) and the CHECK on the status
-- let the row in.
unfoldable pub insertable : Transaction → List Transaction → Bool
insertable t rows =
    is_none (get_transaction t.id rows)
    && is_none (get_transaction_by_key t.tenant_id t.idempotency_key rows)
    && any (text_eq t.status) statuses

-- `UPDATE transactions … WHERE id = $1`
unfoldable pub update_transaction :
    Text → (Transaction → Transaction) → List Transaction → List Transaction
update_transaction id f [] = []
update_transaction id f (t ∷ rows) =
    (if text_eq t.id id then f t else t) ∷ update_transaction id f rows

abbrev pub or_else {ℓ} : {A : Type ℓ} → Option A → Option A → Option A
or_else (some a) b = some a
or_else none b = b

abbrev pub is_final : Text → Bool
is_final status = text_eq status (codes "succeeded") || text_eq status (codes "failed")

-- The SET of `UpdateTransactionStatus`; neither handler gives a block number.
unfoldable pub set_status : Text → Option Text → Time → Transaction → Transaction
set_status status hash now t = record t {
  status = status;
  tx_hash = or_else hash t.tx_hash;
  confirmed_at = if is_final status then some now else t.confirmed_at;
}
