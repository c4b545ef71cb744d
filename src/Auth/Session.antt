-- ===== src/Auth/Session.antt =====
-- Session tokens (internal/auth/session.go).
use atara_pay.Base.{
  zero, suc, ℕ, ◌+◌, ◌*◌, ◌/◌, Option, none, some, List, Text, codes, ltb, length, Result, ok, err,
  if◌then◌else◌,
}
use atara_pay.Base.Int.{ℤ, pos, negsuc}
use atara_pay.Limits.Calendar.{Time}
use atara_pay.Auth.{Claims}

-- `SessionClaims` with the registered claims that are set.
pub record SessionClaims : Type 0 where
  pub user_id : Text
  pub tenant_id : Text
  pub role : Text
  pub issuer : Text
  pub issued_at : Time
  pub expires_at : Time
  pub not_before : Time

-- The library of JSON web tokens. `sign` is `SignedString` under HS256; `parse` is
-- `ParseWithClaims` at a time, for HS256, the issuer and a required expiry.
pub record Jwt : Type 0 where
  pub sign : List ℕ → SessionClaims → Option Text
  pub parse : List ℕ → Text → Time → Text → Option SessionClaims

abbrev pub session_issuer : Text
session_issuer = codes "atara-pay"

abbrev pub nanoseconds : ℕ
nanoseconds = 1_000_000_000

-- `sessionDefault`
abbrev pub session_default : ℕ
session_default = 24 * 3600 * nanoseconds

-- `if ttl <= 0 { ttl = sessionDefault }`
abbrev pub effective_ttl : ℤ → ℕ
effective_ttl (pos zero) = session_default
effective_ttl (pos (suc n)) = suc n
effective_ttl (negsuc n) = session_default

-- `jwt.NewNumericDate`
abbrev pub numeric_date : Time → Time
numeric_date t = t / nanoseconds * nanoseconds

unfoldable pub session_claims : Text → Text → Text → ℤ → Time → SessionClaims
session_claims user tenant role ttl now = record {
  user_id = user;
  tenant_id = tenant;
  role = role;
  issuer = session_issuer;
  issued_at = numeric_date now;
  expires_at = numeric_date (now + effective_ttl ttl);
  not_before = numeric_date now;
}

abbrev pub signed_or : Option Text → Result Text Text
signed_or none = err (codes "auth: sign session")
signed_or (some raw) = ok raw

abbrev pub claims_of : Option SessionClaims → Option Claims
claims_of none = none
claims_of (some c) = some (record { tenant_id = c.tenant_id; user_id = c.user_id; role = c.role })

module _ (jwt : Jwt) (key : List ℕ) where
  -- `NewSessionToken`
  unfoldable pub new_session_token : Text → Text → Text → ℤ → Time → Result Text Text
  new_session_token user tenant role ttl now =
      if ltb (length key) 32
      then err (codes "auth: signing key must be at least 32 bytes")
      else signed_or (jwt.sign key (session_claims user tenant role ttl now))

  -- `ParseSessionToken`
  unfoldable pub parse_session_token : Time → Text → Option Claims
  parse_session_token now raw = claims_of (jwt.parse key session_issuer now raw)
