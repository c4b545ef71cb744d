-- ===== src/SessionKeys/Rows.antt =====
-- The rows of session keys and of their policies, and the statements on them
-- (internal/db/sqlcgen/models.go, session_keys.sql.go; internal/sessionkey/pgx.go).
use atara_pay.Base.{
  suc, ℕ, Bool, true, false, ◌&&◌, Option, none, some, List, [], ◌∷◌, Text, codes, text_eq, is_nil,
  leb, if◌then◌else◌,
}
use atara_pay.Base.Int.{ℤ, pos, negsuc}
use atara_pay.Limits.Amount.{Numeric, print_nat}
use atara_pay.Limits.Calendar.{Time, is_zero_time}
use atara_pay.Limits.Policy.{LimitPolicy, ScopeType}

pub data KeyStatus : Type 0 where
  pending_authorize active rotating expired revoked : KeyStatus

pub record SessionKey : Type 0 where
  pub id : Text
  pub tenant_id : Text
  pub wallet_id : Text
  pub group_id : Text
  pub name : Text
  pub public_address : Text
  pub encrypted_priv_key : Text
  pub key_version : ℕ
  pub policy_id : Option Text
  pub rotation_mode : Text
  pub rotation_interval_s : ℤ
  pub next_rotation_at : Option Time
  pub expires_at : Time
  pub status : KeyStatus
  pub revoked_reason : Option Text
  pub revoked_at : Option Time
  pub rail_native : Bool
  pub on_chain_tx_hash : Option Text

-- A row of `limit_policies`: its scope, and the columns that a check reads.
pub record PolicyRow : Type 0 where
  pub tenant_id : Text
  pub scope_type : ScopeType
  pub scope_id : Option Text
  pub policy : LimitPolicy

pub record KeyStore : Type 0 where
  pub policies : List PolicyRow
  pub keys : List SessionKey

-- `pgxOptText`, `pgxOptTimestamp` and `pgxIntUSD`
abbrev pub pgx_opt_text : Text → Option Text
pgx_opt_text s = if is_nil s then none else some s

abbrev pub pgx_opt_timestamp : Time → Option Time
pgx_opt_timestamp t = if is_zero_time t then none else some t

-- A number of whole dollars, by the text of the column.
abbrev pub pgx_int_usd : ℤ → Numeric
pgx_int_usd (pos n) = some (print_nat n)
pgx_int_usd (negsuc n) = some (b'-' ∷ print_nat (suc n))

-- `UPDATE session_keys … WHERE id = $1`
unfoldable pub update_key : Text → (SessionKey → SessionKey) → List SessionKey → List SessionKey
update_key id f [] = []
update_key id f (k ∷ rows) = (if text_eq k.id id then f k else k) ∷ update_key id f rows

-- `GetSessionKeyByID`
unfoldable pub get_key : Text → List SessionKey → Option SessionKey
get_key id [] = none
get_key id (k ∷ rows) = if text_eq k.id id then some k else get_key id rows

abbrev pub is_live : KeyStatus → Bool
is_live active = true
is_live rotating = true
is_live s = false

-- `ListExpiredSessionKeys`, before the sort by `expires_at` and the limit.
unfoldable pub expired_keys : Time → List SessionKey → List SessionKey
expired_keys now [] = []
expired_keys now (k ∷ rows) =
    let rest = expired_keys now rows in
    if is_live k.status && leb k.expires_at now then k ∷ rest else rest

abbrev pub is_active : KeyStatus → Bool
is_active active = true
is_active s = false

abbrev pub is_due : Time → Option Time → Bool
is_due now none = false
is_due now (some t) = leb t now

-- `ListSessionKeysDueForRotation`, before the sort and the limit.
unfoldable pub rotation_due : Time → List SessionKey → List SessionKey
rotation_due now [] = []
rotation_due now (k ∷ rows) =
    let rest = rotation_due now rows in
    if text_eq k.rotation_mode (codes "auto_rotate")
      && (is_active k.status && is_due now k.next_rotation_at)
    then k ∷ rest
    else rest

-- `UpdateSessionKeyStatus`
unfoldable pub update_status : Text → KeyStatus → KeyStore → KeyStore
update_status id status store = record store {
  keys = update_key id (λ k. record k { status = status }) store.keys;
}

-- `RevokeSessionKey`
unfoldable pub revoke_key : Text → Text → Time → KeyStore → KeyStore
revoke_key id reason now store = record store {
  keys =
      update_key id
        (λ k.
          if is_active k.status
          then record k {
            status = revoked;
            revoked_reason = pgx_opt_text reason;
            revoked_at = some now;
          }
          else k)
        store.keys;
}
