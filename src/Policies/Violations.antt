-- ===== src/Policies/Violations.antt =====
-- The audit rows of refused requests (internal/db/sqlcgen/limit_violations.sql.go) and
-- `ListViolations` (internal/server/handlers/limits.go).
pub mod Denials
use atara_pay.Base.{
  ℕ, suc, Bool, not, Option, none, some, List, [], ◌∷◌, map, Text, text_eq, if◌then◌else◌,
}
use atara_pay.Base.Int.{ℤ}
use atara_pay.Http.{
  Caller, Reply, Handler, ◌>>=◌, ◌>>◌, reply, guard, get_state, with_tenant, internal_error, page,
}
use atara_pay.Limits.Amount.{Numeric, numeric_to_string}
use atara_pay.Limits.Policy.{CheckRequest, ViolationType}
use atara_pay.Limits.Service.{Effect, create_limit_violation, emit_limit_exceeded}
use atara_pay.Transfers.Rows.{pgx_text}

-- A row of `limit_violations`: the columns that the code reads.
pub record LimitViolation : Type 0 where
  pub id : ℕ
  pub tenant_id : Text
  pub policy_id : Option Text
  pub wallet_id : Option Text
  pub session_key_id : Option Text
  pub transaction_id : Option Text
  pub violation_type : ViolationType
  pub attempted_amount : Numeric
  pub attempted_asset : Option Text
  pub attempted_recipient : Option Text

-- `ViolationView`, without the time.
pub record ViolationView : Type 0 where
  pub id : ℕ
  pub type : ViolationType
  pub policy_id : Text
  pub wallet_id : Text
  pub session_key_id : Text
  pub transaction_id : Text
  pub attempted_amount : Text
  pub attempted_asset : Text
  pub attempted_recipient : Text

abbrev pub text_of : Option Text → Text
text_of none = []
text_of (some s) = s

-- `toViolationView`
unfoldable pub to_violation_view : LimitViolation → ViolationView
to_violation_view v = record {
  id = v.id;
  type = v.violation_type;
  policy_id = text_of v.policy_id;
  wallet_id = text_of v.wallet_id;
  session_key_id = text_of v.session_key_id;
  transaction_id = text_of v.transaction_id;
  attempted_amount = numeric_to_string v.attempted_amount;
  attempted_asset = text_of v.attempted_asset;
  attempted_recipient = text_of v.attempted_recipient;
}

-- The row that `reject` writes; it gives no amount.
unfoldable pub violation_row : ℕ → CheckRequest → Text → ViolationType → LimitViolation
violation_row id req policy type = record {
  id = id;
  tenant_id = req.tenant_id;
  policy_id = pgx_text policy;
  wallet_id = pgx_text req.wallet_id;
  session_key_id = pgx_text req.session_key_id;
  transaction_id = pgx_text req.transaction_id;
  violation_type = type;
  attempted_amount = none;
  attempted_asset = pgx_text req.asset;
  attempted_recipient = pgx_text req.recipient;
}

-- `CreateLimitViolation` for each audit write of the checks, where the database takes it: the
-- table from a next id on, newest first.
unfoldable pub violations_after : ℕ → List Effect → List LimitViolation → List LimitViolation
violations_after id [] rows = rows
violations_after id (create_limit_violation req policy type ∷ effects) rows =
    violations_after (suc id) effects (violation_row id req policy type ∷ rows)
violations_after id (emit_limit_exceeded req policy type ∷ effects) rows =
    violations_after id effects rows

-- `ListLimitViolationsByTenant`, before the page.
unfoldable pub violations_of_tenant : Text → List LimitViolation → List LimitViolation
violations_of_tenant tenant [] = []
violations_of_tenant tenant (v ∷ rows) =
    let rest = violations_of_tenant tenant rows in
    if text_eq v.tenant_id tenant then v ∷ rest else rest

-- `ListViolations`
unfoldable pub list_violations :
    Caller → Bool → ℤ → ℤ → Handler (List LimitViolation) (Reply (List ViolationView))
list_violations caller fails limit offset = do
  with_tenant caller
  guard (not fails) internal_error
  rows ← get_state
  reply 200 (map to_violation_view (page limit offset (violations_of_tenant caller.tenant_id rows)))
