-- ===== src/Members.antt =====
-- Accounts of companies and their people: rows, requests, checks and views
-- (internal/server/handlers/auth.go, api_keys.go; internal/db/sqlcgen/tenants.sql.go, users.sql.go,
-- api_keys.sql.go).
pub mod Keys
pub mod Signup
pub mod Histories
pub mod Withdrawn
pub mod Revocation
pub mod Opened
pub mod Users
pub mod Entry
mod Tests
use atara_pay.Base.{
  ℕ, Bool, ◌&&◌, ◌||◌, not, Option, none, some, List, [], ◌∷◌, Text, codes, text_eq, is_nil, first,
  ltb, byte_length, Result, ok, err, if◌then◌else◌,
}
use atara_pay.Limits.Calendar.{Time}
use atara_pay.Transfers.Rows.{pgx_text, is_none}
use atara_pay.Auth.{ApiKey}
use atara_pay.Policies.{PolicyEntry}

pub record Tenant : Type 0 where
  pub id : Text
  pub name : Text
  pub primary_email : Text
  pub plan : Text
  pub status : Text

pub record User : Type 0 where
  pub id : Text
  pub tenant_id : Text
  pub email : Text
  pub password_hash : Text
  pub role : Text

-- The tables. Users stand in the order in which they were created, other rows newest first.
pub record Registry : Type 0 where
  pub tenants : List Tenant
  pub users : List User
  pub api_keys : List ApiKey
  pub policies : List PolicyEntry

abbrev pub no_rows : Registry
no_rows = record { tenants = []; users = []; api_keys = []; policies = [] }

-- UNIQUE (primary_email) and the primary key let the row in.
unfoldable pub tenant_insertable : Tenant → List Tenant → Bool
tenant_insertable t rows =
    is_none (first (λ r. text_eq r.primary_email t.primary_email) rows)
    && is_none (first (λ r. text_eq r.id t.id) rows)

-- UNIQUE (tenant_id, email) and the primary key let the row in.
unfoldable pub user_insertable : User → List User → Bool
user_insertable u rows =
    is_none (first (λ r. text_eq r.tenant_id u.tenant_id && text_eq r.email u.email) rows)
    && is_none (first (λ r. text_eq r.id u.id) rows)

-- UNIQUE (key_hash), the check of the environment and the primary key let the row in.
unfoldable pub key_insertable : ApiKey → List ApiKey → Bool
key_insertable k rows =
    is_none (first (λ r. text_eq r.key_hash k.key_hash) rows)
    && (is_none (first (λ r. text_eq r.id k.id) rows)
        && (text_eq k.environment (codes "test") || text_eq k.environment (codes "live")))

-- `GetUserByEmail`
unfoldable pub get_user_by_email : Text → List User → List User
get_user_by_email email [] = []
get_user_by_email email (u ∷ rows) =
    let rest = get_user_by_email email rows in if text_eq u.email email then u ∷ rest else rest

-- `GetAPIKeyByID`
unfoldable pub get_api_key : Text → List ApiKey → Option ApiKey
get_api_key id = first (λ k. text_eq k.id id)

-- `ListAPIKeysInTenant`
unfoldable pub keys_of_tenant : Text → List ApiKey → List ApiKey
keys_of_tenant tenant [] = []
keys_of_tenant tenant (k ∷ rows) =
    let rest = keys_of_tenant tenant rows in if text_eq k.tenant_id tenant then k ∷ rest else rest

-- `RevokeAPIKey`
abbrev pub revoked_row : Text → Time → ApiKey → ApiKey
revoked_row reason now k = record k { revoked_at = some now; revoked_reason = pgx_text reason }

unfoldable pub revoke_rows : Text → Text → Time → List ApiKey → List ApiKey
revoke_rows id reason now [] = []
revoke_rows id reason now (k ∷ rows) =
    (if text_eq k.id id && is_none k.revoked_at then revoked_row reason now k else k)
    ∷ revoke_rows id reason now rows

-- `toAPIKeyView`, without the times.
pub record ApiKeyView : Type 0 where
  pub id : Text
  pub name : Text
  pub environment : Text
  pub prefix : Text
  pub is_revoked : Bool

abbrev pub to_api_key_view : ApiKey → ApiKeyView
to_api_key_view k = record {
  id = k.id;
  name = k.name;
  environment = k.environment;
  prefix = k.key_prefix;
  is_revoked = not (is_none k.revoked_at);
}

pub record CreateApiKeyRequest : Type 0 where
  pub name : Text
  pub environment : Text

-- `CreateAPIKeyResponse`, without the notice.
pub record CreatedApiKey : Type 0 where
  pub view : ApiKeyView
  pub key : Text

pub record SignupRequest : Type 0 where
  pub company_name : Text
  pub email : Text
  pub password : Text

pub record ApiKeyMint : Type 0 where
  pub id : Text
  pub key : Text
  pub prefix : Text

-- `tenantView` and `userView`
pub record TenantView : Type 0 where
  pub id : Text
  pub name : Text
  pub primary_email : Text
  pub plan : Text

pub record UserView : Type 0 where
  pub id : Text
  pub email : Text
  pub role : Text

-- `SignupResponse`, without the notice.
pub record SignupResponse : Type 0 where
  pub tenant : TenantView
  pub user : UserView
  pub test : ApiKeyMint
  pub live : ApiKeyMint

pub record LoginRequest : Type 0 where
  pub email : Text
  pub password : Text

pub record LoginResponse : Type 0 where
  pub session_token : Text
  pub expires_at : ℕ
  pub user : UserView
  pub tenant_id : Text

-- `validateSignup`, on whether `mail.ParseAddress` takes an address.
unfoldable pub validate_signup : (Text → Bool) → SignupRequest → Result Text (Unit {0})
validate_signup is_address r =
    if is_nil r.company_name
    then err (codes "company_name is required")
    else if ltb 100 (byte_length r.company_name)
    then err (codes "company_name too long")
    else if not (is_address r.email)
    then err (codes "email is not a valid address")
    else if ltb (byte_length r.password) 12
    then err (codes "password must be at least 12 characters")
    else ok tt
