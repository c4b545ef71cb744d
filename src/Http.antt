-- ===== src/Http.antt =====
-- What the handlers of internal/server share: callers, replies, guards and pages
-- (internal/server/middleware/ctxhelper.go, internal/server/handlers).
pub mod Post
use atara_pay.Base.{
  zero, suc, ℕ, ◌+◌, Bool, true, false, ◌&&◌, ◌||◌, not, Option, none, some, List, [], ◌∷◌, Text,
  codes, text_eq, is_nil, leb, ltb, take, drop, Result, ok, err, if◌then◌else◌,
}
use atara_pay.Base.Int.{ℤ, pos, negsuc}

-- The locals that the authentication leaves in the request context; an empty text is none.
pub record Caller : Type 0 where
  pub tenant_id : Text
  pub user_id : Text
  pub role : Text
  pub api_key_id : Text

-- An answer other than a success: the status code and the error text.
pub record Failure : Type 0 where
  pub status : ℕ
  pub error : Text

pub record Reply (A : Type 0) : Type 0 where
  pub status : ℕ
  pub body : A

-- A handler on a state. A failure keeps the writes that came before it.
abbrev pub Handler : Type 0 → Type 0 → Type 0
Handler S A = S → Result Failure A × S

unfoldable pub and_then :
    {S A B : Type 0} → (A → Handler S B) → Result Failure A × S → Result Failure B × S
and_then f (ok a, s) = f a s
and_then f (err e, s) = (err e, s)

infixl 5 ◌>>=◌ ◌>>◌
abbrev pub ◌>>=◌ : {S A B : Type 0} → Handler S A → (A → Handler S B) → Handler S B
◌>>=◌ m f s = and_then f (m s)

abbrev pub ◌>>◌ : {S B : Type 0} → Handler S (Unit {0}) → Handler S B → Handler S B
m >> k = m >>= λ _. k

abbrev pub reply : {S A : Type 0} → ℕ → A → Handler S (Reply A)
reply status a s = (ok (record { status = status; body = a }), s)

abbrev pub fail : {S A : Type 0} → Failure → Handler S A
fail e s = (err e, s)

-- Go on where the test holds.
unfoldable pub guard : {S : Type 0} → Bool → Failure → Handler S (Unit {0})
guard true e s = (ok tt, s)
guard false e s = (err e, s)

-- Go on with what was found.
unfoldable pub need : {S A : Type 0} → Option A → Failure → Handler S A
need (some a) e s = (ok a, s)
need none e s = (err e, s)

-- Go on with a result, its error put into a failure.
unfoldable pub attempt : {S E A : Type 0} → Result E A → (E → Failure) → Handler S A
attempt (ok a) f s = (ok a, s)
attempt (err e) f s = (err (f e), s)

abbrev pub get_state : {S : Type 0} → Handler S S
get_state s = (ok s, s)

-- `badRequest`, `internalError`, `conflict`, `upstreamError` and the answers that handlers spell out.
abbrev pub bad_request : Text → Failure
bad_request error = record { status = 400; error = error }

abbrev pub unauthorized : Text → Failure
unauthorized error = record { status = 401; error = error }

abbrev pub forbidden : Text → Failure
forbidden error = record { status = 403; error = error }

abbrev pub not_found : Text → Failure
not_found error = record { status = 404; error = error }

abbrev pub conflict : Text → Failure
conflict error = record { status = 409; error = error }

abbrev pub unprocessable : Text → Failure
unprocessable error = record { status = 422; error = error }

abbrev pub internal_error : Failure
internal_error = record { status = 500; error = codes "internal error" }

abbrev pub upstream_error : Text → Failure
upstream_error error = record { status = 502; error = error }

-- `canManageKeys`: the roles that manage keys, limits and endpoints.
unfoldable pub can_manage : Text → Bool
can_manage role = text_eq role (codes "owner") || text_eq role (codes "admin")

-- The role gate: a caller without a role came with an API key.
unfoldable pub role_allows : Caller → Bool
unfolding can_manage
role_allows caller = is_nil caller.role || can_manage caller.role

module _ {S : Type 0} where
  -- The first guard of every handler.
  abbrev pub with_tenant : Caller → Handler S (Unit {0})
  with_tenant caller =
      guard (not (is_nil caller.tenant_id)) (bad_request (codes "missing tenant context"))

  abbrev pub with_role : Caller → Text → Handler S (Unit {0})
  with_role caller error = guard (role_allows caller) (forbidden error)

-- A page of a list: `limit` is 50 unless it is between 1 and 200, and a negative offset is 0.
abbrev pub page_limit : ℤ → ℕ
page_limit (pos n) = if ltb 0 n && leb n 200 then n else 50
page_limit (negsuc n) = 50

abbrev pub page_offset : ℤ → ℕ
page_offset (pos n) = n
page_offset (negsuc n) = 0

abbrev pub page {ℓ} : {A : Type ℓ} → ℤ → ℤ → List A → List A
page limit offset rows = take (page_limit limit) (drop (page_offset offset) rows)
