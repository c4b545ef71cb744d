-- ===== src/Auth.antt =====
-- Authentication of requests by API key or session (internal/auth/apikey.go,
-- internal/server/middleware/auth.go, session.go).
pub mod Keys
pub mod Gate
pub mod RateLimit
pub mod Password
pub mod Session
pub mod Tests
use atara_pay.Base.{
  ℕ, Bool, true, false, ◌&&◌, ◌||◌, not, Option, none, some, List, [], ◌∷◌, ◌++◌, Text, codes,
  text_eq, is_nil, has_prefix, trim_space, byte_length, ltb, take, first, Result, ok, err,
  if◌then◌else◌, drop,
}
use atara_pay.Http.{Caller}
use atara_pay.Limits.Calendar.{Time}
use atara_pay.Transfers.Rows.{is_none}

pub record ApiKey : Type 0 where
  pub id : Text
  pub tenant_id : Text
  pub created_by : Option Text
  pub name : Text
  pub environment : Text
  pub key_prefix : Text
  pub key_hash : Text
  pub revoked_at : Option Time
  pub revoked_reason : Option Text

-- Why a request does not go on: it is answered 401, or the handler panics.
pub data AuthStop : Type 0 where
  denied : Text → AuthStop
  panicked : AuthStop

-- What a request carries on to its handler.
pub record Locals : Type 0 where
  pub caller : Caller
  pub environment : Text

pub record Claims : Type 0 where
  pub tenant_id : Text
  pub user_id : Text
  pub role : Text

-- SHA-256, `base64.RawURLEncoding` and `auth.ParseSessionToken` under the signing key.
pub record Crypto : Type 0 where
  pub sha256 : Text → Text
  pub raw_url_encoding : List ℕ → Text
  pub parse_session_token : Text → Option Claims

-- `KeyPrefixLength`
abbrev pub key_prefix_length : ℕ
key_prefix_length = 20

-- A new key: the secret, its visible prefix and its hash.
pub record MintedKey : Type 0 where
  pub raw : Text
  pub prefix : Text
  pub hash : Text

pub data MintKeyError : Type 0 where
  invalid_env no_random shorter_than_prefix : MintKeyError

-- `ParseAPIKey`: a slice past the end of the key panics.
unfoldable pub parse_api_key : Text → Result AuthStop Text
parse_api_key raw =
    let malformed : Result AuthStop Text = err (denied (codes "auth: malformed API key")) in
    let sized =
      λ (env : Text). if ltb (byte_length raw) key_prefix_length then malformed else ok env in
    if not (has_prefix raw (codes "sk_"))
    then malformed
    else if ltb (byte_length raw) 8
    then err panicked
    else if has_prefix raw (codes "sk_test_")
    then sized (codes "test")
    else if has_prefix raw (codes "sk_live_")
    then sized (codes "live")
    else malformed

-- `bearerFromHeader`
unfoldable pub bearer_from_header : Text → Option Text
bearer_from_header h =
    let token = trim_space (drop 7 h) in
    if has_prefix h (codes "Bearer ") && not (is_nil token) then some token else none

-- `requiredKeyEnv`
unfoldable pub required_key_env : Text → Text
required_key_env gateway =
    if text_eq gateway (codes "production")
    then codes "live"
    else if text_eq gateway (codes "staging") || text_eq gateway (codes "development")
    then codes "test"
    else []

-- `GetAPIKeyByHash`
unfoldable pub get_api_key_by_hash : Text → List ApiKey → Option ApiKey
get_api_key_by_hash hash = first (λ k. text_eq k.key_hash hash && is_none k.revoked_at)

module _ (crypto : Crypto) where
  -- `MintAPIKey`; `none` is an error of the random source.
  unfoldable pub mint_api_key : Text → Option (List ℕ) → Result MintKeyError MintedKey
  mint_api_key env random =
      if not (text_eq env (codes "test") || text_eq env (codes "live"))
      then err invalid_env
      else elim random [
        | none ↦ err no_random
        | some bytes ↦
            let raw = codes "sk_" ++ env ++ codes "_" ++ crypto.raw_url_encoding bytes in
            if ltb (byte_length raw) key_prefix_length
            then err shorter_than_prefix
            else ok (record {
              raw = raw;
              prefix = take key_prefix_length raw;
              hash = crypto.sha256 raw;
            })
      ]

  -- The end of `APIKeyAuthForEnvironment`: the row against the environment of the key.
  abbrev pub admit_row : Text → Option ApiKey → Result AuthStop Locals
  admit_row env none = err (denied (codes "invalid api key"))
  admit_row env (some row) =
      if text_eq row.environment env
      then ok (record {
        caller = record { tenant_id = row.tenant_id; user_id = []; role = []; api_key_id = row.id };
        environment = row.environment;
      })
      else err (denied (codes "invalid api key"))

  -- `APIKeyAuthForEnvironment`, once the key is parsed; an error of the query is a missing row.
  abbrev pub check_key : Text → Text → List ApiKey → Result AuthStop Text → Result AuthStop Locals
  check_key gateway raw rows (err (denied e)) = err (denied (codes "invalid api key format"))
  check_key gateway raw rows (err panicked) = err panicked
  check_key gateway raw rows (ok env) =
      if not (is_nil (required_key_env gateway)) && not (text_eq env (required_key_env gateway))
      then err (denied (codes "api key environment does not match gateway environment"))
      else admit_row env (get_api_key_by_hash (crypto.sha256 raw) rows)

  -- `APIKeyAuthForEnvironment`
  unfoldable pub api_key_auth : Text → List ApiKey → Text → Result AuthStop Locals
  api_key_auth gateway rows header = elim (bearer_from_header header) [
    | none ↦ err (denied (codes "missing or malformed Authorization header"))
    | some raw ↦ check_key gateway raw rows (parse_api_key raw)
  ]

  abbrev pub admit_claims : Option Claims → Result AuthStop Locals
  admit_claims none = err (denied (codes "invalid session token"))
  admit_claims (some c) = ok (record {
    caller = record {
      tenant_id = c.tenant_id;
      user_id = c.user_id;
      role = c.role;
      api_key_id = [];
    };
    environment = [];
  })

  -- `SessionAuth`
  unfoldable pub session_auth : Text → Result AuthStop Locals
  session_auth header = elim (bearer_from_header header) [
    | none ↦ err (denied (codes "missing or malformed Authorization header"))
    | some raw ↦ admit_claims (crypto.parse_session_token raw)
  ]

  -- `EitherAuthForEnvironment`
  unfoldable pub either_auth : Text → List ApiKey → Text → Result AuthStop Locals
  either_auth gateway rows header = elim (bearer_from_header header) [
    | none ↦ err (denied (codes "missing or malformed Authorization header"))
    | some raw ↦
        if has_prefix raw (codes "sk_")
        then api_key_auth gateway rows header
        else session_auth header
  ]
