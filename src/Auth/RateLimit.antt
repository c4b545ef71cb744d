-- ===== src/Auth/RateLimit.antt =====
-- The budget of requests of a tenant in one minute (internal/server/middleware/ratelimit.go).
use atara_pay.Base.{
  ℕ, suc, ◌+◌, ◌-◌, ◌%◌, ◌≤◌, not, ◌||◌, ◌≡◌, Bool, true, false, List, [], ◌∷◌, ◌++◌, Text, codes,
  is_nil, ltb, if◌then◌else◌, Bool-cases, inl, inr, arith,
}

-- `RateLimitConfig`, with the limit as a count: zero, and what is below it, is the default.
pub record RateLimitConfig : Type 0 where
  pub requests_per_minute : ℕ
  pub key_prefix : Text

-- The defaults of `RateLimit`
unfoldable pub effective_limit : RateLimitConfig → ℕ
effective_limit cfg = if ltb 0 cfg.requests_per_minute then cfg.requests_per_minute else 600

unfoldable pub effective_prefix : RateLimitConfig → Text
effective_prefix cfg = if is_nil cfg.key_prefix then codes "rl" else cfg.key_prefix

-- `currentWindowKey`, for the text of the minute.
unfoldable pub current_window_key : Text → Text → Text → Text
current_window_key prefix tenant minute = prefix ++ codes ":" ++ tenant ++ codes ":" ++ minute

-- `nextWindowUnix`, for a time in seconds.
unfoldable pub next_window_unix : ℕ → ℕ
next_window_unix now = now - now % 60 + 60

-- What a request of a tenant is answered: it goes on, with the remaining budget where Redis
-- answered, or it is refused.
pub data Passage : Type 0 where
  unmetered : Passage
  metered : ℕ → Passage
  too_many : Passage

-- One request on the count of its window; Redis may fail, and then counts nothing.
unfoldable pub pass_window : ℕ → Bool → ℕ → Passage × ℕ
pass_window limit false used = (unmetered, used)
pass_window limit true used =
    if ltb limit (used + 1) then (too_many, used + 1) else (metered (limit - (used + 1)), used + 1)

-- `RateLimit`: a request without a tenant is not counted, nor is any without Redis.
unfoldable pub rate_limit : RateLimitConfig → Bool → Text → Bool → ℕ → Passage × ℕ
rate_limit cfg wired tenant up used =
    if not wired || is_nil tenant
    then (unmetered, used)
    else pass_window (effective_limit cfg) up used

-- The requests of a tenant in one window, each with whether Redis answers: how many go on.
unfoldable pub goes_on : Passage → ℕ
goes_on unmetered = 1
goes_on (metered left) = 1
goes_on too_many = 0

unfoldable pub admitted : RateLimitConfig → Text → List Bool → ℕ → ℕ
admitted cfg tenant [] used = 0
admitted cfg tenant (up ∷ ups) used =
    let (passage, used') = rate_limit cfg true tenant up used in
    goes_on passage + admitted cfg tenant ups used'

abbrev pub failures : List Bool → ℕ
failures [] = 0
failures (true ∷ ups) = failures ups
failures (false ∷ ups) = suc (failures ups)

not_over : (a b : ℕ) → ltb a b ≡ false → b ≤ a
not_over a b h = ground arith

metered_step :
    (cfg : RateLimitConfig) (tenant : Text) (ups : List Bool) (used : ℕ)
    → is_nil tenant ≡ false
    → admitted cfg tenant ups used ≤ (effective_limit cfg - used) + failures ups
unfolding admitted rate_limit pass_window goes_on
metered_step cfg tenant [] used h = omega arith
metered_step cfg tenant (false ∷ ups) used h =
    simp h (let ih = metered_step cfg tenant ups used h in omega arith)
metered_step cfg tenant (true ∷ ups) used h =
    elim (Bool-cases (ltb (effective_limit cfg) (used + 1))) [
      | inl over ↦ simp (h, over) (let ih = metered_step cfg tenant ups (used + 1) h in omega arith)
      | inr within ↦
          simp (h, within)
            (let ih = metered_step cfg tenant ups (used + 1) h in
              let small = not_over _ _ within in omega arith)
    ]

-- In one window, from a count of zero, at most the limit of a tenant's requests go on, and one
-- more for each request on which Redis failed.
pub admitted_le_limit :
    (cfg : RateLimitConfig) (tenant : Text) (ups : List Bool)
    → is_nil tenant ≡ false
    → admitted cfg tenant ups 0 ≤ effective_limit cfg + failures ups
admitted_le_limit cfg tenant ups h = let all = metered_step cfg tenant ups 0 h in omega arith
