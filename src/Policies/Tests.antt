-- ===== src/Policies/Tests.antt =====
-- Concrete runs of the limits of a tenant.
use atara_pay.Base.{◌≡◌, refl, false, none, some, List, [], ◌∷◌, codes, ok}
use atara_pay.Base.Int.{pos}
use atara_pay.Http.{Caller}
use atara_pay.Policies.{
  UpdateTenantLimitsRequest, CapQuad, PolicyEntry, tier_metadata, extract_metadata_tier, index_of,
}
use atara_pay.Policies.Update.{Attempt, default_row}
use atara_pay.Limits.Amount.{scale_to_micros, cut_point, trim_left_zeros, parse_int}
use atara_pay.Limits.Policy.{CheckRequest, exceeds_numeric, per_tx_exceeded, resolve_policy}
use atara_pay.Limits.Service.{
  CheckResult, Violation, over_per_tx, check, enforce, per_tx_gates, reject,
}
use atara_pay.Limits.Tests.{memory, plain, one_policy, wired, noon, unused}
use atara_pay.Policies.Violations.{ViolationView, violations_after, list_violations}
use atara_pay.Policies.Violations.Denials.{denial_is_listed}

abbrev steady : Attempt
steady = record {
  scan = λ s. some (pos 1);
  new_id = codes "lp_2";
  begin_fails = false;
  read_fails = false;
  disable_fails = false;
  insert_fails = false;
  commit_fails = false;
}

abbrev owner : Caller
owner = record {
  tenant_id = codes "t_1";
  user_id = codes "u_1";
  role = codes "owner";
  api_key_id = [];
}

abbrev to_standard : UpdateTenantLimitsRequest
to_standard = record {
  tier = codes "standard";
  per_tx_amount = [];
  daily_amount = [];
  weekly_amount = [];
  monthly_amount = [];
}

abbrev no_limits : CapQuad
no_limits = record { per_tx = none; daily = none; weekly = none; monthly = none }

abbrev before_it : List PolicyEntry
before_it = default_row (codes "lp_1") (codes "t_1") (codes "custom") no_limits ∷ []

-- The tier that is stored is the tier that is shown.
stored_tier_shown : extract_metadata_tier (tier_metadata (codes "aggressive")) ≡ codes "aggressive"
unfolding extract_metadata_tier index_of
stored_tier_shown = refl

abbrev six_hundred : CheckRequest
six_hundred = record {
  tenant_id = codes "t_1";
  wallet_id = codes "w_1";
  session_key_id = [];
  amount = codes "600";
  asset = codes "USDC";
  recipient = codes "0xabc";
  transaction_id = [];
}

abbrev too_large : Violation
too_large = record {
  type = per_tx_exceeded;
  limit_value = codes "100";
  current_used = codes "600";
  message = over_per_tx (codes "600") (codes "100");
}

abbrev refused : CheckResult
refused = record { allowed = false; policy_id = codes "lp_1"; violation = some too_large }

denial_is_listed_example :
    (view : ViolationView) × (rest : List ViolationView) × ((list_violations owner false
        (pos 10)
        (pos 0)
        (violations_after 1
          (check plain memory one_policy wired six_hundred noon unused).1.effects
          [])).0
      ≡ ok (record { status = 200; body = view ∷ rest }))
    × (view.type ≡ per_tx_exceeded)
    × (view.policy_id ≡ codes "lp_1")
    × (view.wallet_id ≡ codes "w_1")
    × (view.session_key_id ≡ [])
    × (view.attempted_asset ≡ codes "USDC")
    × (view.attempted_recipient ≡ codes "0xabc")
    × (view.attempted_amount ≡ [])
unfolding check resolve_policy enforce per_tx_gates exceeds_numeric scale_to_micros cut_point
    trim_left_zeros parse_int reject
denial_is_listed_example =
    denial_is_listed plain memory one_policy wired six_hundred noon unused refused too_large owner
      (pos 10) 1 [] refl refl refl refl
