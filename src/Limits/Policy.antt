-- ===== src/Limits/Policy.antt =====
-- Limit policies: the rows, the lookups that resolve one and the gates that need no counter
-- (internal/limits/service.go, internal/limits/helpers.go, internal/db/sqlcgen/models.go).
pub mod Resolution
use atara_pay.Base.{
  ℕ, Bool, true, false, ◌&&◌, not, Option, none, some, List, [], ◌∷◌, Text, Result, ok, err,
  text_eq, is_nil, any, if◌then◌else◌,
}
use atara_pay.Limits.Amount.{AmountError, Numeric, numeric_to_string}
use atara_pay.Limits.Calendar.{Time, Zone, after, is_zero_time}
use atara_pay.Limits.Period.{Period}

-- The columns of `limit_policies` that a check reads. A SQL NULL is `none`; the two JSON columns
-- are texts.
pub record LimitPolicy : Type 0 where
  pub id : Text
  pub per_tx_amount : Numeric
  pub daily_amount : Numeric
  pub weekly_amount : Numeric
  pub monthly_amount : Numeric
  pub timezone : Text
  pub allowed_recipients : Text
  pub denied_recipients : Text
  pub expires_at : Option Time
  pub enabled : Bool

-- Why a query gave no row.
pub data QueryError : Type 0 where
  no_rows unavailable : QueryError

pub data ScopeType : Type 0 where
  session_key_scope wallet_scope wallet_group_scope : ScopeType

-- `Querier`: the three reads of a check. A wallet is read for its group.
pub record Querier : Type 0 where
  pub get_tenant_default_policy : Text → Result QueryError LimitPolicy
  pub get_policy_for_scope : Text → ScopeType → Text → Result QueryError LimitPolicy
  pub get_wallet_group : Text → Result QueryError Text

pub record CheckRequest : Type 0 where
  pub tenant_id : Text
  pub wallet_id : Text
  pub session_key_id : Text
  pub amount : Text
  pub asset : Text
  pub recipient : Text
  pub transaction_id : Text

-- A lookup that falls through to the next tier on any error.
abbrev pub or_next {ℓ} : {A : Type ℓ} → Result QueryError A → Option A → Option A
or_next (ok p) next = some p
or_next (err e) next = next

-- The lookup by the wallet's group, where the wallet is found.
abbrev pub group_policy :
    Querier → Text → Result QueryError Text → Option LimitPolicy → Option LimitPolicy
group_policy q tenant (ok group) next =
    or_next (q.get_policy_for_scope tenant wallet_group_scope group) next
group_policy q tenant (err e) next = next

-- `resolvePolicy`: it has no error result; `none` is "not found".
unfoldable pub resolve_policy : Querier → CheckRequest → Option LimitPolicy
resolve_policy q req =
    let by_tenant = or_next (q.get_tenant_default_policy req.tenant_id) none in
    let by_group = group_policy q req.tenant_id (q.get_wallet_group req.wallet_id) by_tenant in
    let by_wallet =
      if is_nil req.wallet_id
      then by_tenant
      else or_next (q.get_policy_for_scope req.tenant_id wallet_scope req.wallet_id) by_group in
    if is_nil req.session_key_id
    then by_wallet
    else or_next (q.get_policy_for_scope req.tenant_id session_key_scope req.session_key_id)
        by_wallet

-- What a check uses of packages strings, encoding/json, math/big and time.
pub record Std : Type 1 where
  pub to_lower : Text → Text
  pub json_strings : Text → Option (List Text)
  pub Float : Type 0
  pub parse_float : Text → Option Float
  pub greater : Float → Float → Bool
  pub find_zone : Text → Option Zone
  pub utc : Zone
  pub rfc3339 : Time → Text

pub data ViolationType : Type 0 where
  policy_expired per_tx_exceeded recipient_not_allowlisted recipient_denied : ViolationType
  period_exceeded : Period → ViolationType

pub data CheckError : Type 0 where
  malformed_cap malformed_amount redis_failed : CheckError
  bad_amount : AmountError → CheckError

-- Gate 1: an expiry that is set, and not the zero time, has passed.
abbrev pub has_expired : Option Time → Time → Bool
has_expired none now = false
has_expired (some t) now = not (is_zero_time t) && after now t

abbrev pub or_empty : Option (List Text) → List Text
or_empty none = []
or_empty (some list) = list

module _ (std : Std) where
  open std use {to_lower, json_strings, parse_float, greater}

  -- The comparison in `exceedsNumeric`, once the cap and the amount are parsed.
  abbrev pub compare_floats :
      Text → Option std.Float → Option std.Float → Result CheckError (Bool × Text)
  compare_floats cap none amount = err malformed_cap
  compare_floats cap (some c) none = err malformed_amount
  compare_floats cap (some c) (some a) = ok (greater a c, cap)

  -- `exceedsNumeric`
  unfoldable pub exceeds_numeric : Numeric → Text → Result CheckError (Bool × Text)
  exceeds_numeric cap amount =
      if is_nil (numeric_to_string cap)
      then ok (false, [])
      else compare_floats (numeric_to_string cap) (parse_float (numeric_to_string cap))
          (parse_float amount)

  -- `parseJSONStringList`
  unfoldable pub parse_json_string_list : Text → List Text
  parse_json_string_list raw = if is_nil raw then [] else or_empty (json_strings raw)

  abbrev pub listed : Text → List Text → Bool
  listed target = any (λ a. text_eq (to_lower a) target)

  -- `recipientGate`
  unfoldable pub recipient_gate : Text → LimitPolicy → Option ViolationType
  recipient_gate recipient pol =
      let target = to_lower recipient in
      let allow = parse_json_string_list pol.allowed_recipients in
      if is_nil recipient
      then none
      else if not (is_nil allow)
      then if listed target allow then none else some recipient_not_allowlisted
      else if listed target (parse_json_string_list pol.denied_recipients)
      then some recipient_denied
      else none
