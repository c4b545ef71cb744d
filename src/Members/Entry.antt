-- ===== src/Members/Entry.antt =====
-- Who has signed up can log in, and the session token opens the gate
-- (internal/server/handlers/auth.go, internal/auth/session.go, internal/server/middleware/session.go).
use atara_pay.Base.{
  ℕ, ◌≤◌, ◌<◌, ◌+◌, ◌-◌, ◌/◌, ◌≡◌, refl, sym, ap, ◌∙◌, Bool, true, false, some, List, [], ◌∷◌, ◌++◌,
  Text, codes, is_nil, is_space, ltb, byte_length, length, trim_space, has_prefix, All, ok, arith,
}
use atara_pay.Http.{Reply, and_then, guard, need, attempt}
use atara_pay.Http.Post.{Post, ok-Post, guard-Post, attempt-Post, state-Post, Post-ok}
use atara_pay.Limits.Calendar.{Time}
use atara_pay.Auth.{ApiKey, Crypto, Locals, session_auth, either_auth}
use atara_pay.Auth.Keys.{bearer_from_header_bearer}
use atara_pay.Auth.Password.{Argon, verify_password}
use atara_pay.Auth.Password.RoundTrip.{IsArgon, hashed-verifies}
use atara_pay.Auth.Session.{
  SessionClaims, Jwt, session_issuer, session_claims, numeric_date, effective_ttl,
  new_session_token, nanoseconds, parse_session_token,
}
use atara_pay.SessionKeys.Input.{unix_epoch}
use atara_pay.Members.{
  User, Registry, no_rows, tenant_insertable, SignupRequest, SignupResponse, LoginRequest,
  LoginResponse, validate_signup,
}
use atara_pay.Members.Signup.{
  Addressing, SignupDraw, owner_row, user_view, normalised, open_account, signup, LoginSetting,
  login,
}
use atara_pay.Members.Users.{IsFirst, no_user, new_user_found, Change-IsFirst}
use atara_pay.Members.Histories.{
  tenant_of_email, IsConsistent, is_none→eq, and_left, MemberOp, serve_all, serve_all-induction,
  serve_all-IsConsistent,
}

-- What is documented of the tokens: a signed one is accepted under the same key and issuer from its
-- start until its expiry; its text has no blank and begins with its header, which no key does.
pub record IsJwt (jwt : Jwt) : Type 0 where
  pub signs : (key : List ℕ) (c : SessionClaims) → (raw : Text) × (jwt.sign key c ≡ some raw)
  pub accepts :
      (key : List ℕ) (c : SessionClaims) (raw : Text) (now : Time)
      → jwt.sign key c ≡ some raw
      → c.not_before ≤ now
      → now < c.expires_at
      → jwt.parse key c.issuer now raw ≡ some c
  pub no_space :
      (key : List ℕ) (c : SessionClaims) (raw : Text)
      → jwt.sign key c ≡ some raw
      → All (λ ch. is_space ch ≡ false) raw
  pub filled :
      (key : List ℕ) (c : SessionClaims) (raw : Text)
      → jwt.sign key c ≡ some raw
      → is_nil raw ≡ false
  pub no_key :
      (key : List ℕ) (c : SessionClaims) (raw : Text)
      → jwt.sign key c ≡ some raw
      → has_prefix raw (codes "sk_") ≡ false

module _ (crypto : Crypto) (argon : Argon) (good : IsArgon argon) (lib : Addressing)
    (draw : SignupDraw) (req : SignupRequest) (s : Registry) where
  -- What a request to sign up that succeeds leaves behind for a later login.
  abbrev HasOwner : Reply SignupResponse → Registry → Type 0
  HasOwner answer s' =
      (u : User) × (verify_password argon u.password_hash req.password ≡ ok tt)
      × (u.email ≡ lib.to_lower (trim_space req.email))
      × (validate_signup lib.is_address (normalised lib req) ≡ ok tt)
      × (user_view u ≡ answer.body.user)
      × (u.tenant_id ≡ answer.body.tenant.id)
      × IsFirst u.email u s'.users

  signup-HasOwner :
      IsConsistent s → Post HasOwner (λ s'. Unit {0}) (signup crypto argon lib draw req s)
  unfolding signup open_account tenant_insertable
  signup-HasOwner consistent = attempt-Post _ _ tt λ unit fine. attempt-Post _ _ tt λ hash hashed.
      attempt-Post _ _ tt λ test e1. attempt-Post _ _ tt λ live e2. guard-Post _ _ tt λ begun.
        guard-Post _ _ tt λ up. state-Post _ (
          guard-Post _ _ tt λ new. guard-Post _ _ tt λ user. guard-Post _ _ tt λ free_test.
            guard-Post _ _ tt λ free_live. guard-Post _ _ tt λ policy.
              guard-Post _ _ tt λ committed. ok-Post (
                let owner = owner_row draw (normalised lib req) hash in
                (
                  owner,
                  hashed-verifies argon good req.password draw.salt hash hashed,
                  refl,
                  fine,
                  refl,
                  refl,
                  new_user_found owner s.users (
                      no_user owner.email s.tenants s.users consistent.addresses
                        (is_none→eq (tenant_of_email owner.email s.tenants) (and_left _ _ new))),
                )))

-- What `validateSignup` has tested.
checked :
    (is_address : Text → Bool) (r : SignupRequest)
    → validate_signup is_address r ≡ ok tt
    → (is_address r.email ≡ true) × (ltb (byte_length r.password) 12 ≡ false)
unfolding validate_signup
checked is_address r h = ground arith

long_text : (t : Text) → ltb (byte_length t) 12 ≡ false → is_nil t ≡ false
long_text [] h = cc
long_text (c ∷ t) h = refl

address_text :
    (is_address : Text → Bool) (t : Text)
    → is_address [] ≡ false
    → is_address t ≡ true
    → is_nil t ≡ false
address_text is_address [] none_empty h = cc
address_text is_address (c ∷ t) none_empty h = refl

-- The locals of a request that came with a session token.
abbrev pub session_locals : Text → Text → Text → Locals
session_locals tenant user role = record {
  caller = record { tenant_id = tenant; user_id = user; role = role; api_key_id = [] };
  environment = [];
}

-- The gate's cryptography with the tokens of `internal/auth/session.go`.
abbrev pub with_tokens : Crypto → Jwt → List ℕ → Time → Crypto
with_tokens crypto jwt key now = record crypto {
  parse_session_token = parse_session_token jwt key now;
}

module _ (crypto : Crypto) (jwt : Jwt) (good : IsJwt jwt) where
  token_admitted :
      (gateway : Text) (rows : List ApiKey) (key : List ℕ) (c : SessionClaims) (raw : Text)
      (now : Time)
      → jwt.sign key c ≡ some raw
      → c.issuer ≡ session_issuer
      → c.not_before ≤ now
      → now < c.expires_at
      → either_auth (with_tokens crypto jwt key now) gateway rows (codes "Bearer " ++ raw)
        ≡ ok (session_locals c.tenant_id c.user_id c.role)
  unfolding either_auth session_auth parse_session_token
  token_admitted gateway rows key c raw now signed issuer started unexpired =
      let bears =
        bearer_from_header_bearer raw (good.no_space key c raw signed)
          (good.filled key c raw signed) in
      let parsed : jwt.parse key session_issuer now raw ≡ some c =
        ap (λ i. jwt.parse key i now raw) (sym issuer)
        ∙ good.accepts key c raw now signed started unexpired in
      rw (bears, either_auth)
        (rw (good.no_key key c raw signed) (rw (bears, session_auth) (rw parsed refl)))

module _ (crypto : Crypto) (argon : Argon) (good_argon : IsArgon argon) (jwt : Jwt)
    (good_jwt : IsJwt jwt) (lib : Addressing) (no_empty : lib.is_address [] ≡ false) where
  -- The claims of the token that a login signs.
  abbrev claims : LoginSetting → User → SessionClaims
  claims env u = session_claims u.id u.tenant_id u.role env.session_ttl env.now

  login_user :
      (env : LoginSetting) (entry : LoginRequest) (u : User) (s : Registry) (raw : Text)
      → env.query_fails ≡ false
      → ltb (length env.session_secret) 32 ≡ false
      → is_nil entry.password ≡ false
      → is_nil u.email ≡ false
      → lib.to_lower (trim_space entry.email) ≡ u.email
      → verify_password argon u.password_hash entry.password ≡ ok tt
      → IsFirst u.email u s.users
      → jwt.sign env.session_secret (claims env u) ≡ some raw
      → (r : Reply LoginResponse) × (login argon jwt lib env entry s ≡ (ok r, s))
        × (r.status ≡ 200)
        × (r.body.session_token ≡ raw)
        × (r.body.user ≡ user_view u)
        × (r.body.tenant_id ≡ u.tenant_id)
  unfolding login new_session_token and_then guard need attempt
  login_user env entry u s raw up secret typed filled address accepted (rest, found) signed = (
    record {
      status = 200;
      body = record {
        session_token = raw;
        expires_at = (env.now + effective_ttl env.session_ttl) / nanoseconds - unix_epoch;
        user = user_view u;
        tenant_id = u.tenant_id;
      };
    },
    simp (address, filled, typed, found, up, accepted, secret, signed) refl,
    refl,
    refl,
    refl,
    refl,
  )

  -- The tables after a request to sign up between other operations.
  abbrev pub later_tables : List MemberOp → List MemberOp → SignupDraw → SignupRequest → Registry
  later_tables before after draw req =
      serve_all crypto argon jwt lib after
        (signup crypto argon lib draw req (serve_all crypto argon jwt lib before no_rows)).1

  -- After a request to sign up that succeeds, from any operations on empty tables, and any
  -- operations that follow, a login with the same password and an address that is read the same
  -- succeeds as the owner of that tenant and changes nothing, where its query succeeds and the
  -- signing key has 32 bytes; and until the token expires the gate lets it in as that owner.
  pub login_after_signup :
      (before after : List MemberOp) (draw : SignupDraw) (req : SignupRequest)
      (answer : Reply SignupResponse) (env : LoginSetting) (entry : LoginRequest) (gateway : Text)
      (rows : List ApiKey) (later : Time)
      → (signup crypto argon lib draw req (serve_all crypto argon jwt lib before no_rows)).0
        ≡ ok answer
      → lib.to_lower (trim_space entry.email) ≡ lib.to_lower (trim_space req.email)
      → entry.password ≡ req.password
      → env.query_fails ≡ false
      → ltb (length env.session_secret) 32 ≡ false
      → env.now ≤ later
      → later < numeric_date (env.now + effective_ttl env.session_ttl)
      → (r : Reply LoginResponse) × (login argon jwt lib env entry
            (later_tables before after draw req)
          ≡ (ok r, later_tables before after draw req))
        × (r.body.user ≡ answer.body.user)
        × (r.body.tenant_id ≡ answer.body.tenant.id)
        × (either_auth
              (with_tokens crypto jwt env.session_secret later)
              gateway
              rows
              (codes "Bearer " ++ r.body.session_token)
            ≡ ok (session_locals answer.body.tenant.id answer.body.user.id answer.body.user.role))
  unfolding session_claims
  login_after_signup before after draw req answer env entry gateway rows later done address password
        up secret started unexpired =
      let s0 : Registry = serve_all crypto argon jwt lib before no_rows in
      let (u, accepted, mail, fine, shown, home, is_first) =
        Post-ok
          (signup-HasOwner crypto argon good_argon lib draw req s0
            (serve_all-IsConsistent crypto argon jwt lib before))
          done in
      let s : Registry =
        serve_all crypto argon jwt lib after (signup crypto argon lib draw req s0).1 in
      let still : IsFirst u.email u s.users =
        serve_all-induction crypto argon jwt lib (λ t. IsFirst u.email u t.users)
          (Change-IsFirst u.email u) after (signup crypto argon lib draw req s0).1 is_first in
      let (is_addr, long) = checked lib.is_address (normalised lib req) fine in
      let (raw, signed) = good_jwt.signs env.session_secret (claims env u) in
      let (r, answered, status, token, user, tenant) =
        login_user env entry u s raw up secret (ap is_nil password ∙ long_text req.password long)
          (ap is_nil mail ∙ address_text lib.is_address _ no_empty is_addr) (address ∙ sym mail)
          (ap (verify_password argon u.password_hash) password ∙ accepted) still signed in
      let admitted =
        token_admitted crypto jwt good_jwt gateway rows env.session_secret (claims env u) raw later
          signed refl (omega arith) unexpired in
      (
        r,
        answered,
        user ∙ shown,
        tenant ∙ home,
        ap
              (λ t.
                either_auth (with_tokens crypto jwt env.session_secret later) gateway rows
                  (codes "Bearer " ++ t))
              token
            ∙ admitted
            ∙ (λ i. ok (session_locals (home i) (shown i).id (shown i).role)),
      )
