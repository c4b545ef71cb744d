-- ===== src/Policies/Update/Replacement.antt =====
-- A tenant's new limits take the place of the old ones (internal/server/handlers/limits.go).
use atara_pay.Base.{◌≡◌, true, false, none, Text, codes}
use atara_pay.Policies.{CapQuad, PolicyEntry, PolicyView, tier_metadata, numeric_to_string}
use atara_pay.Policies.Update.{Attempt}

disabled : PolicyEntry → PolicyEntry
disabled p = record p { policy = record p.policy { enabled = false } }

-- The database takes every statement.
pub record IsUp (now : Attempt) : Type 0 where
  pub begin : now.begin_fails ≡ false
  pub read : now.read_fails ≡ false
  pub disable : now.disable_fails ≡ false
  pub insert : now.insert_fails ≡ false
  pub commit : now.commit_fails ≡ false

-- An enabled default of the tenant with these caps, and the answer that shows it.
pub record IsDefault (id tenant name : Text) (caps : CapQuad) (p : PolicyEntry) (view : PolicyView)
    : Type 0 where
  pub named : p.policy.id ≡ id
  pub owned : p.tenant_id ≡ tenant
  pub everywhere : p.scope ≡ none
  pub per_tx : p.policy.per_tx_amount ≡ caps.per_tx
  pub daily : p.policy.daily_amount ≡ caps.daily
  pub weekly : p.policy.weekly_amount ≡ caps.weekly
  pub monthly : p.policy.monthly_amount ≡ caps.monthly
  pub in_utc : p.policy.timezone ≡ codes "UTC"
  pub unlisted :
      (p.policy.allowed_recipients ≡ codes "[]") × (p.policy.denied_recipients ≡ codes "[]")
  pub lasting : p.policy.expires_at ≡ none
  pub is_on : p.policy.enabled ≡ true
  pub tier : p.metadata ≡ tier_metadata name
  pub shown_id : view.id ≡ id
  pub shown_per_tx : view.per_tx_amount ≡ numeric_to_string caps.per_tx
  pub shown_daily : view.daily_amount ≡ numeric_to_string caps.daily
  pub shown_weekly : view.weekly_amount ≡ numeric_to_string caps.weekly
  pub shown_monthly : view.monthly_amount ≡ numeric_to_string caps.monthly
  pub shown_on : view.enabled ≡ true
