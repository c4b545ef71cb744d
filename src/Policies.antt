-- ===== src/Policies.antt =====
-- The limits that a tenant sets for itself: tiers, requests and views
-- (internal/limits/defaults.go, internal/server/handlers/limits.go).
pub mod Update
pub mod Violations
mod Tests
use atara_pay.Base.{
  ℕ, suc, Bool, true, false, ◌||◌, not, ◌&&◌, Option, none, some, List, [], ◌∷◌, ◌++◌, Text, codes,
  text_eq, is_nil, has_prefix, take, length, leb, Result, ok, err, ◌>>=◌, if◌then◌else◌, drop,
}
use atara_pay.Base.Int.{ℤ, pos, negsuc}
use atara_pay.Limits.Amount.{Numeric, numeric_to_string, print_nat}
use atara_pay.Limits.Policy.{LimitPolicy, ScopeType}

-- `Tier`; its amounts are whole dollars.
pub record Tier : Type 0 where
  pub name : Text
  pub per_tx_usd : ℕ
  pub daily_usd : ℕ
  pub weekly_usd : ℕ
  pub monthly_usd : ℕ
  pub session_ttl_days : ℕ

abbrev pub tier_conservative : Tier
tier_conservative = record {
  name = codes "conservative";
  per_tx_usd = 5;
  daily_usd = 20;
  weekly_usd = 100;
  monthly_usd = 300;
  session_ttl_days = 1;
}

abbrev pub tier_standard : Tier
tier_standard = record {
  name = codes "standard";
  per_tx_usd = 50;
  daily_usd = 200;
  weekly_usd = 1000;
  monthly_usd = 3000;
  session_ttl_days = 7;
}

abbrev pub tier_aggressive : Tier
tier_aggressive = record {
  name = codes "aggressive";
  per_tx_usd = 500;
  daily_usd = 5000;
  weekly_usd = 30_000;
  monthly_usd = 100_000;
  session_ttl_days = 30;
}

-- `ToNumeric`, for an amount that is not negative.
abbrev pub to_numeric : ℕ → Numeric
to_numeric n = some (print_nat n)

pub record UpdateTenantLimitsRequest : Type 0 where
  pub tier : Text
  pub per_tx_amount : Text
  pub daily_amount : Text
  pub weekly_amount : Text
  pub monthly_amount : Text

-- `capQuad`
pub record CapQuad : Type 0 where
  pub per_tx : Numeric
  pub daily : Numeric
  pub weekly : Numeric
  pub monthly : Numeric

-- `capsFromTier`
abbrev pub caps_from_tier : Tier → CapQuad
caps_from_tier t = record {
  per_tx = to_numeric t.per_tx_usd;
  daily = to_numeric t.daily_usd;
  weekly = to_numeric t.weekly_usd;
  monthly = to_numeric t.monthly_usd;
}

-- The tests of `parseDecimalUSD` on what `fmt.Sscanf` reads with "%d".
unfoldable pub parse_scanned : Option ℤ → Result Text ℕ
parse_scanned none = err (codes "must be a non-negative integer USD amount")
parse_scanned (some (negsuc n)) = err (codes "must be a non-negative integer USD amount")
parse_scanned (some (pos n)) =
    if leb n 10_000_000
    then ok n
    else err (codes "amount too large; contact support for higher caps")

-- `parseDecimalUSD`
abbrev pub parse_decimal_usd : (Text → Option ℤ) → Text → Result Text ℕ
parse_decimal_usd scan s = parse_scanned (scan s)

-- An error of one field, under its name.
abbrev pub labelled : Text → Result Text ℕ → Result Text ℕ
labelled name (ok n) = ok n
labelled name (err e) = err (name ++ codes ": " ++ e)

-- `capsFromStrings`
unfoldable pub caps_from_strings :
    (Text → Option ℤ) → UpdateTenantLimitsRequest → Result Text CapQuad
caps_from_strings scan req = do
  per_tx ← labelled (codes "per_tx_amount") (parse_decimal_usd scan req.per_tx_amount)
  daily ← labelled (codes "daily_amount") (parse_decimal_usd scan req.daily_amount)
  weekly ← labelled (codes "weekly_amount") (parse_decimal_usd scan req.weekly_amount)
  monthly ← labelled (codes "monthly_amount") (parse_decimal_usd scan req.monthly_amount)
  ok (record {
    per_tx = to_numeric per_tx;
    daily = to_numeric daily;
    weekly = to_numeric weekly;
    monthly = to_numeric monthly;
  })

-- The switch on the name of the tier; the error leaves out the name that it quotes.
unfoldable pub tier_named : Text → Result Text Tier
tier_named name =
    if text_eq name (codes "conservative")
    then ok tier_conservative
    else if text_eq name (codes "standard")
    then ok tier_standard
    else if text_eq name (codes "aggressive")
    then ok tier_aggressive
    else err (codes "unknown tier")

abbrev pub from_tier : Result Text Tier → Result Text (Text × CapQuad)
from_tier (err e) = err e
from_tier (ok t) = ok (t.name, caps_from_tier t)

abbrev pub from_caps : Result Text CapQuad → Result Text (Text × CapQuad)
from_caps (err e) = err e
from_caps (ok caps) = ok (codes "custom", caps)

-- `resolveLimitsUpdate`, with the name that `UpdateTenantLimits` then stores.
unfoldable pub resolve_limits_update :
    (Text → Option ℤ) → UpdateTenantLimitsRequest → Result Text (Text × CapQuad)
resolve_limits_update scan req =
    let has_tier = not (is_nil req.tier) in
    let has_custom =
      not (is_nil req.per_tx_amount)
      || not (is_nil req.daily_amount)
      || not (is_nil req.weekly_amount)
      || not (is_nil req.monthly_amount) in
    let has_gap =
      is_nil req.per_tx_amount
      || is_nil req.daily_amount
      || is_nil req.weekly_amount
      || is_nil req.monthly_amount in
    if has_tier && has_custom
    then err (codes "specify either tier or explicit caps, not both")
    else if not has_tier && not has_custom
    then err (codes "specify either tier or all four explicit caps")
    else if has_tier
    then from_tier (tier_named req.tier)
    else if has_gap
    then err (codes "custom caps require per_tx, daily, weekly, and monthly all present")
    else from_caps (caps_from_strings scan req)

-- `indexOf`; `none` is -1.
unfoldable pub index_of : Text → Text → Option ℕ
index_of [] sub = if is_nil sub then some 0 else none
index_of (c ∷ s) sub =
    let rest = index_of s sub in
    if has_prefix (c ∷ s) sub then some 0 else elim rest [ none ↦ none | some i ↦ some (suc i) ]

abbrev pub up_to : Text → Option ℕ → Text
up_to s none = []
up_to s (some j) = take j s

abbrev pub tier_key : Text
tier_key = codes "\"tier\":\""

abbrev pub tier_at : Text → Option ℕ → Text
tier_at s none = []
tier_at s (some i) =
    let rest = drop (length tier_key) (drop i s) in up_to rest (index_of rest (codes "\""))

-- `extractMetadataTier`
unfoldable pub extract_metadata_tier : Text → Text
extract_metadata_tier s = tier_at s (index_of s tier_key)

-- The metadata that `UpdateTenantLimits` stores: `%q` of the four names needs no escape.
abbrev pub tier_metadata : Text → Text
tier_metadata name = codes "{\"tier\":\"" ++ name ++ codes "\"}"

-- A row of `limit_policies`; no scope is "tenant_default".
pub record PolicyEntry : Type 0 where
  pub tenant_id : Text
  pub scope : Option ScopeType
  pub policy : LimitPolicy
  pub metadata : Text

pub record PolicyView : Type 0 where
  pub id : Text
  pub scope : Option ScopeType
  pub tier : Text
  pub per_tx_amount : Text
  pub daily_amount : Text
  pub weekly_amount : Text
  pub monthly_amount : Text
  pub timezone : Text
  pub enabled : Bool

-- `toPolicyView`, without the asset, which is USDC in every row, and the time.
unfoldable pub to_policy_view : PolicyEntry → PolicyView
to_policy_view p = record {
  id = p.policy.id;
  scope = p.scope;
  tier = extract_metadata_tier p.metadata;
  per_tx_amount = numeric_to_string p.policy.per_tx_amount;
  daily_amount = numeric_to_string p.policy.daily_amount;
  weekly_amount = numeric_to_string p.policy.weekly_amount;
  monthly_amount = numeric_to_string p.policy.monthly_amount;
  timezone = p.policy.timezone;
  enabled = p.policy.enabled;
}
