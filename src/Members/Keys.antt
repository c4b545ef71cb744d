-- ===== src/Members/Keys.antt =====
-- `CreateAPIKey`, `ListAPIKeys` and `RevokeAPIKey` (internal/server/handlers/api_keys.go).
use atara_pay.Base.{
  ℕ, Bool, ◌&&◌, ◌||◌, not, Option, none, List, ◌∷◌, map, Text, codes, text_eq, is_nil,
  if◌then◌else◌,
}
use atara_pay.Http.{
  Caller, Reply, Handler, ◌>>=◌, ◌>>◌, reply, guard, need, attempt, get_state, with_tenant,
  with_role, bad_request, not_found, internal_error,
}
use atara_pay.Limits.Calendar.{Time}
use atara_pay.Transfers.Rows.{pgx_text, is_none}
use atara_pay.Transfers.Plane.{unless_fails}
use atara_pay.Auth.{ApiKey, Crypto, MintedKey, mint_api_key}
use atara_pay.Members.{
  Registry, key_insertable, get_api_key, keys_of_tenant, revoke_rows, ApiKeyView, to_api_key_view,
  CreateApiKeyRequest, CreatedApiKey,
}

-- What one request meets: the random bytes, the id and the time that it draws, and whether its
-- query or its write fails.
pub record KeyDraw : Type 0 where
  pub random : Option (List ℕ)
  pub new_id : Text
  pub now : Time
  pub query_fails : Bool
  pub write_fails : Bool

-- The row of a new key.
abbrev pub key_row : Text → Text → Text → Text → Text → MintedKey → ApiKey
key_row id tenant user name env key = record {
  id = id;
  tenant_id = tenant;
  created_by = pgx_text user;
  name = name;
  environment = env;
  key_prefix = key.prefix;
  key_hash = key.hash;
  revoked_at = none;
  revoked_reason = none;
}

-- `CreateAPIKey` of the tables, and the answer.
unfoldable pub store_key : KeyDraw → MintedKey → ApiKey → Handler Registry (Reply CreatedApiKey)
store_key draw key row s =
    (do
      guard (not draw.write_fails && key_insertable row s.api_keys) internal_error
      (λ s.
          reply 201 (record { view = to_api_key_view row; key = key.raw })
            (record s { api_keys = row ∷ s.api_keys })))
      s

-- `CreateAPIKey`, after the body is parsed.
unfoldable pub create_api_key :
    Crypto → Caller → KeyDraw → CreateApiKeyRequest → Handler Registry (Reply CreatedApiKey)
create_api_key crypto caller draw req = do
  with_tenant caller
  with_role caller (codes "your role cannot create API keys")
  guard (not (is_nil req.name)) (bad_request (codes "name is required"))
  guard (text_eq req.environment (codes "test") || text_eq req.environment (codes "live"))
      (bad_request (codes "environment must be 'test' or 'live'"))
  key ← attempt (mint_api_key crypto req.environment draw.random) (λ e. internal_error)
  store_key draw key
      (key_row draw.new_id caller.tenant_id caller.user_id req.name req.environment key)

-- `ListAPIKeys`
unfoldable pub list_api_keys : Caller → KeyDraw → Handler Registry (Reply (List ApiKeyView))
list_api_keys caller draw = do
  with_tenant caller
  guard (not draw.query_fails) internal_error
  s ← get_state
  reply 200 (map to_api_key_view (keys_of_tenant caller.tenant_id s.api_keys))

-- `RevokeAPIKey` of the tables: the row as it is after the update.
unfoldable pub revoke_live : KeyDraw → Text → Text → ApiKey → Handler Registry (Reply ApiKeyView)
revoke_live draw id reason row s =
    let rows = revoke_rows id reason draw.now s.api_keys in
    (do
      guard (not draw.write_fails) internal_error
      (λ s.
          (do
            updated ← need (get_api_key id rows) internal_error
            reply 200 (to_api_key_view updated))
            (record s { api_keys = rows })))
      s

-- `RevokeAPIKey`; the reason is empty where the body gives none.
unfoldable pub revoke_api_key : Caller → KeyDraw → Text → Text → Handler Registry (Reply ApiKeyView)
revoke_api_key caller draw id reason = do
  with_tenant caller
  with_role caller (codes "your role cannot revoke API keys")
  guard (not (is_nil id)) (bad_request (codes "missing id"))
  s ← get_state
  row ←
      need (unless_fails draw.query_fails (get_api_key id s.api_keys))
        (not_found (codes "key not found"))
  guard (text_eq row.tenant_id caller.tenant_id) (not_found (codes "key not found"))
  if not (is_none row.revoked_at)
      then reply 200 (to_api_key_view row)
      else revoke_live draw id (if is_nil reason then codes "manually revoked" else reason) row
