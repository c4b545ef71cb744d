-- ===== src/Members/Signup.antt =====
-- `Signup` and `Login` (internal/server/handlers/auth.go).
use atara_pay.Base.{
  ℕ, ◌+◌, ◌-◌, ◌/◌, Bool, ◌&&◌, not, Option, none, some, List, [], ◌∷◌, ◌++◌, Text, codes, is_nil,
  trim_space, if◌then◌else◌,
}
use atara_pay.Base.Int.{ℤ}
use atara_pay.Http.{
  Failure, Reply, Handler, ◌>>=◌, ◌>>◌, reply, guard, need, attempt, get_state, bad_request,
  conflict, unauthorized, internal_error,
}
use atara_pay.Limits.Calendar.{Time}
use atara_pay.Auth.{ApiKey, Crypto, MintedKey, mint_api_key}
use atara_pay.Auth.Password.{Argon, hash_password, verify_password}
use atara_pay.Auth.Session.{Jwt, new_session_token, effective_ttl, nanoseconds}
use atara_pay.Policies.{PolicyEntry, tier_conservative, caps_from_tier}
use atara_pay.Policies.Update.{default_row, insertable_default}
use atara_pay.SessionKeys.Input.{unix_epoch}
use atara_pay.Members.{
  Tenant, User, Registry, tenant_insertable, user_insertable, key_insertable, get_user_by_email,
  SignupRequest, SignupResponse, LoginRequest, LoginResponse, UserView, validate_signup,
}
use atara_pay.Members.Keys.{key_row}

-- `strings.ToLower` and `mail.ParseAddress`
pub record Addressing : Type 0 where
  pub to_lower : Text → Text
  pub is_address : Text → Bool

-- What a request to sign up draws, and the statements that fail.
pub record SignupDraw : Type 0 where
  pub salt : Option (List ℕ)
  pub test_random : Option (List ℕ)
  pub live_random : Option (List ℕ)
  pub tenant_id : Text
  pub user_id : Text
  pub test_id : Text
  pub live_id : Text
  pub policy_id : Text
  pub begin_fails : Bool
  pub tenant_insert_fails : Bool
  pub user_insert_fails : Bool
  pub key_insert_fails : Bool
  pub policy_insert_fails : Bool
  pub commit_fails : Bool

abbrev pub tenant_row : SignupDraw → SignupRequest → Tenant
tenant_row draw req = record {
  id = draw.tenant_id;
  name = req.company_name;
  primary_email = req.email;
  plan = codes "free";
  status = codes "active";
}

abbrev pub owner_row : SignupDraw → SignupRequest → Text → User
owner_row draw req hash = record {
  id = draw.user_id;
  tenant_id = draw.tenant_id;
  email = req.email;
  password_hash = hash;
  role = codes "owner";
}

abbrev pub user_view : User → UserView
user_view u = record { id = u.id; email = u.email; role = u.role }

-- The default policy of a new tenant.
abbrev pub first_policy : SignupDraw → PolicyEntry
first_policy draw =
    default_row draw.policy_id draw.tenant_id tier_conservative.name
      (caps_from_tier tier_conservative)

-- The answer of `Signup`.
abbrev pub signup_response :
    SignupDraw → SignupRequest → User → MintedKey → MintedKey → SignupResponse
signup_response draw req user test live = record {
  tenant = record {
    id = draw.tenant_id;
    name = req.company_name;
    primary_email = req.email;
    plan = codes "free";
  };
  user = user_view user;
  test = record { id = draw.test_id; key = test.raw; prefix = test.prefix };
  live = record { id = draw.live_id; key = live.raw; prefix = live.prefix };
}

-- `req.CompanyName` and `req.Email` as they are read.
abbrev pub normalised : Addressing → SignupRequest → SignupRequest
normalised lib req = record req {
  company_name = trim_space req.company_name;
  email = lib.to_lower (trim_space req.email);
}

-- The two keys of a new tenant.
abbrev pub test_row : SignupDraw → MintedKey → ApiKey
test_row draw key =
    key_row draw.test_id draw.tenant_id draw.user_id (codes "default test key") (codes "test") key

abbrev pub live_row : SignupDraw → MintedKey → ApiKey
live_row draw key =
    key_row draw.live_id draw.tenant_id draw.user_id (codes "default live key") (codes "live") key

-- The tables after the transaction of `Signup`.
abbrev pub with_account :
    SignupDraw → SignupRequest → Text → MintedKey → MintedKey → Registry → Registry
with_account draw req hash test live s = record {
  tenants = tenant_row draw req ∷ s.tenants;
  users = s.users ++ owner_row draw req hash ∷ [];
  api_keys = live_row draw live ∷ test_row draw test ∷ s.api_keys;
  policies = first_policy draw ∷ s.policies;
}

-- The transaction of `Signup`: its rows are kept only where it commits.
unfoldable pub open_account :
    SignupDraw
    → SignupRequest
    → Text
    → MintedKey
    → MintedKey
    → Handler Registry (Reply SignupResponse)
open_account draw req hash test live = do
  guard (not draw.begin_fails) internal_error
  guard (not draw.tenant_insert_fails) internal_error
  s ← get_state
  guard (tenant_insertable (tenant_row draw req) s.tenants)
      (conflict (codes "an account with this email already exists"))
  guard (not draw.user_insert_fails && user_insertable (owner_row draw req hash) s.users)
      internal_error
  guard (not draw.key_insert_fails && key_insertable (test_row draw test) s.api_keys) internal_error
  guard (key_insertable (live_row draw live) (test_row draw test ∷ s.api_keys)) internal_error
  guard (not draw.policy_insert_fails && insertable_default (first_policy draw) s.policies)
      internal_error
  guard (not draw.commit_fails) internal_error
  (λ s.
      reply 201 (signup_response draw req (owner_row draw req hash) test live)
        (with_account draw req hash test live s))

module _ (crypto : Crypto) (argon : Argon) (lib : Addressing) where
  -- `Signup`, after the body is parsed.
  unfoldable pub signup : SignupDraw → SignupRequest → Handler Registry (Reply SignupResponse)
  signup draw req = do
    attempt (validate_signup lib.is_address (normalised lib req)) bad_request
    hash ← attempt (hash_password argon req.password draw.salt) (λ e. internal_error)
    test ← attempt (mint_api_key crypto (codes "test") draw.test_random) (λ e. internal_error)
    live ← attempt (mint_api_key crypto (codes "live") draw.live_random) (λ e. internal_error)
    open_account draw (normalised lib req) hash test live

-- The signing key, the configured lifetime of sessions, and what one login meets.
pub record LoginSetting : Type 0 where
  pub session_secret : List ℕ
  pub session_ttl : ℤ
  pub now : Time
  pub query_fails : Bool

-- `loginRejected`
abbrev pub login_rejected : Failure
login_rejected = unauthorized (codes "invalid email or password")

-- `users[0]`, where the query succeeds.
abbrev pub first_user : Bool → List User → Option User
first_user fails [] = none
first_user fails (u ∷ rest) = if fails then none else some u

module _ (argon : Argon) (jwt : Jwt) (lib : Addressing) where
  -- `Login`, after the body is parsed. The stamp of the last login runs beside the request.
  unfoldable pub login : LoginSetting → LoginRequest → Handler Registry (Reply LoginResponse)
  login env req = do
    let email = lib.to_lower (trim_space req.email)
    guard (not (is_nil email) && not (is_nil req.password)) login_rejected
    s ← get_state
    user ← need (first_user env.query_fails (get_user_by_email email s.users)) login_rejected
    attempt (verify_password argon user.password_hash req.password) (λ e. login_rejected)
    token ←
        attempt
          (new_session_token jwt env.session_secret user.id user.tenant_id user.role env.session_ttl
            env.now)
          (λ e. internal_error)
    reply 200 (record {
      session_token = token;
      expires_at = (env.now + effective_ttl env.session_ttl) / nanoseconds - unix_epoch;
      user = user_view user;
      tenant_id = user.tenant_id;
    })
