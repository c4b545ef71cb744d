-- ===== src/Limits/Policy/Resolution.antt =====
-- Which policy governs a request.
use atara_pay.Base.{
  ◌≡◌, Option, none, some, List, [], ◌∷◌, Text, Result, ok, err, is_nil, if◌then◌else◌, arith,
}
use atara_pay.Limits.Policy.{
  LimitPolicy, QueryError, ScopeType, unavailable, session_key_scope, wallet_scope,
  wallet_group_scope, Querier, CheckRequest, resolve_policy,
}

abbrev pub found : Result QueryError LimitPolicy → Option LimitPolicy
found (ok p) = some p
found (err e) = none

abbrev pub in_group : Querier → CheckRequest → Result QueryError Text → Option LimitPolicy
in_group q req (ok group) = found (q.get_policy_for_scope req.tenant_id wallet_group_scope group)
in_group q req (err e) = none

-- The four tiers from the most specific to the broadest; a tier that the request names no
-- scope for is empty.
abbrev pub tiers : Querier → CheckRequest → List (Option LimitPolicy)
tiers q req =
    (if is_nil req.session_key_id
      then none
      else found (q.get_policy_for_scope req.tenant_id session_key_scope req.session_key_id))
    ∷ (if is_nil req.wallet_id
        then none
        else found (q.get_policy_for_scope req.tenant_id wallet_scope req.wallet_id))
    ∷ (if is_nil req.wallet_id then none else in_group q req (q.get_wallet_group req.wallet_id))
    ∷ found (q.get_tenant_default_policy req.tenant_id)
    ∷ []

abbrev pub first_present : List (Option LimitPolicy) → Option LimitPolicy
first_present [] = none
first_present (none ∷ rest) = first_present rest
first_present (some p ∷ rest) = some p

-- The policy that governs a request is the first that a tier has, from the session key over the
-- wallet and its group to the tenant's default.
pub resolve_policy-first_present :
    (q : Querier) (req : CheckRequest) → resolve_policy q req ≡ first_present (tiers q req)
unfolding resolve_policy
resolve_policy-first_present q req = ground arith

-- Every query fails for another reason than a missing row.
pub record IsDown (q : Querier) : Type 0 where
  pub no_default : (t : Text) → q.get_tenant_default_policy t ≡ err unavailable
  pub no_scope :
      (t : Text) (k : ScopeType) (x : Text) → q.get_policy_for_scope t k x ≡ err unavailable
  pub no_wallet : (w : Text) → q.get_wallet_group w ≡ err unavailable

pub resolve_policy-IsDown :
    (q : Querier) (req : CheckRequest) → IsDown q → resolve_policy q req ≡ none
unfolding resolve_policy
resolve_policy-IsDown q req down = ground (
  arith,
  down.no_default req.tenant_id,
  down.no_scope req.tenant_id session_key_scope req.session_key_id,
  down.no_scope req.tenant_id wallet_scope req.wallet_id,
  down.no_wallet req.wallet_id,
)
