-- ===== src/Policies/Update.antt =====
-- `GetTenantLimits` and `UpdateTenantLimits` (internal/server/handlers/limits.go) on the table of
-- policies (internal/db/sqlcgen/limit_policies.sql.go).
pub mod Replacement
use atara_pay.Base.{
  ℕ, ◌+◌, Bool, true, false, ◌&&◌, not, Option, none, some, List, [], ◌∷◌, Text, codes, text_eq,
  first, Result, ok, err, if◌then◌else◌,
}
use atara_pay.Base.Int.{ℤ}
use atara_pay.Http.{
  Caller, Failure, Reply, Handler, ◌>>=◌, ◌>>◌, reply, guard, need, attempt, get_state, with_tenant,
  with_role, bad_request, not_found, internal_error,
}
use atara_pay.Transfers.Rows.{is_none}
use atara_pay.Policies.{
  UpdateTenantLimitsRequest, CapQuad, resolve_limits_update, tier_metadata, PolicyEntry, PolicyView,
  to_policy_view,
}

-- What one request meets: `fmt.Sscanf` with "%d", the id that is drawn, and the statements that
-- the database fails.
pub record Attempt : Type 0 where
  pub scan : Text → Option ℤ
  pub new_id : Text
  pub begin_fails : Bool
  pub read_fails : Bool
  pub disable_fails : Bool
  pub insert_fails : Bool
  pub commit_fails : Bool

abbrev pub is_default_of : Text → PolicyEntry → Bool
is_default_of tenant p = text_eq p.tenant_id tenant && (is_none p.scope && p.policy.enabled)

-- `GetTenantDefaultPolicy`
unfoldable pub get_tenant_default : Text → List PolicyEntry → Option PolicyEntry
get_tenant_default tenant = first (is_default_of tenant)

-- `DisableLimitPolicy`
unfoldable pub disable_policy : Text → List PolicyEntry → List PolicyEntry
disable_policy id [] = []
disable_policy id (p ∷ rows) =
    let off = record p { policy = record p.policy { enabled = false } } in
    (if text_eq p.policy.id id then off else p) ∷ disable_policy id rows

abbrev pub has_id : Text → PolicyEntry → Bool
has_id id p = text_eq p.policy.id id

-- The unique index on the enabled default of a tenant, and the primary key, let the row in.
unfoldable pub insertable_default : PolicyEntry → List PolicyEntry → Bool
insertable_default p rows =
    is_none (get_tenant_default p.tenant_id rows) && is_none (first (has_id p.policy.id) rows)

-- The row that `UpdateTenantLimits` inserts.
unfoldable pub default_row : Text → Text → Text → CapQuad → PolicyEntry
default_row id tenant name caps = record {
  tenant_id = tenant;
  scope = none;
  policy = record {
    id = id;
    per_tx_amount = caps.per_tx;
    daily_amount = caps.daily;
    weekly_amount = caps.weekly;
    monthly_amount = caps.monthly;
    timezone = codes "UTC";
    allowed_recipients = codes "[]";
    denied_recipients = codes "[]";
    expires_at = none;
    enabled = true;
  };
  metadata = tier_metadata name;
}

-- The rows after the old default is disabled, where there is one that the query finds; `none` is
-- an error.
unfoldable pub without_default : Attempt → Text → List PolicyEntry → Option (List PolicyEntry)
without_default now tenant rows =
    if now.read_fails then some rows else elim (get_tenant_default tenant rows) [
      | none ↦ some rows
      | some old ↦ if now.disable_fails then none else some (disable_policy old.policy.id rows)
    ]

-- The transaction of `UpdateTenantLimits`: its rows are kept only where it commits.
unfoldable pub replace_default :
    Attempt → Text → PolicyEntry → Handler (List PolicyEntry) (Reply PolicyView)
replace_default now tenant row rows = elim (without_default now tenant rows) [
  | none ↦ (err internal_error, rows)
  | some kept ↦
      if not now.insert_fails && insertable_default row kept && not now.commit_fails
      then (ok (record { status = 200; body = to_policy_view row }), row ∷ kept)
      else (err internal_error, rows)
]

-- `UpdateTenantLimits`, after the body is parsed.
unfoldable pub update_tenant_limits :
    Caller → Attempt → UpdateTenantLimitsRequest → Handler (List PolicyEntry) (Reply PolicyView)
update_tenant_limits caller now req = do
  with_tenant caller
  with_role caller (codes "your role cannot change tenant limits")
  resolved ← attempt (resolve_limits_update now.scan req) bad_request
  guard (not now.begin_fails) internal_error
  replace_default now caller.tenant_id
      (default_row now.new_id caller.tenant_id resolved.0 resolved.1)

-- `GetTenantLimits`
unfoldable pub get_tenant_limits : Caller → Attempt → Handler (List PolicyEntry) (Reply PolicyView)
get_tenant_limits caller now = do
  with_tenant caller
  rows ← get_state
  row ←
      need (if now.read_fails then none else get_tenant_default caller.tenant_id rows)
        (not_found (codes "no tenant_default policy set"))
  reply 200 (to_policy_view row)

-- The enabled defaults of a tenant.
unfoldable pub count_defaults : Text → List PolicyEntry → ℕ
count_defaults tenant [] = 0
count_defaults tenant (p ∷ rows) =
    (if is_default_of tenant p then 1 else 0) + count_defaults tenant rows
