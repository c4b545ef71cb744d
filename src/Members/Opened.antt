-- ===== src/Members/Opened.antt =====
-- What a company finds after it has signed up (internal/server/handlers/auth.go).
use atara_pay.Base.{ℕ, ◌≡◌, true, none, some, List, ◌∷◌, ◌++◌, Text, codes, length, trim_space, ok}
use atara_pay.Http.{Reply}
use atara_pay.Http.Post.{Post}
use atara_pay.Auth.{ApiKey, Crypto, MintedKey, mint_api_key, either_auth}
use atara_pay.Auth.Keys.{IsEncoding, locals_of}
use atara_pay.Auth.Password.{Argon}
use atara_pay.Limits.Amount.{numeric_to_string}
use atara_pay.Policies.{PolicyEntry}
use atara_pay.Policies.Update.{get_tenant_default}
use atara_pay.Members.{Tenant, Registry, key_insertable, SignupRequest, SignupResponse}
use atara_pay.Members.Signup.{Addressing, SignupDraw, test_row, live_row}

-- 24 bytes are drawn for each key.
pub record DrawsKeys (draw : SignupDraw) : Type 0 where
  pub test : (bytes : List ℕ) → draw.test_random ≡ some bytes → length bytes ≡ 24
  pub live : (bytes : List ℕ) → draw.live_random ≡ some bytes → length bytes ≡ 24

-- An enabled policy of the tenant, for all of its wallets, with the limits of the conservative tier:
-- 5 USD for a transaction, 20 a day, 100 a week and 300 a month.
pub record IsConservative (tenant : Text) (p : PolicyEntry) : Type 0 where
  pub owned : p.tenant_id ≡ tenant
  pub everywhere : p.scope ≡ none
  pub per_tx : numeric_to_string p.policy.per_tx_amount ≡ codes "5"
  pub daily : numeric_to_string p.policy.daily_amount ≡ codes "20"
  pub weekly : numeric_to_string p.policy.weekly_amount ≡ codes "100"
  pub monthly : numeric_to_string p.policy.monthly_amount ≡ codes "300"
  pub in_utc : p.policy.timezone ≡ codes "UTC"
  pub unlisted :
      (p.policy.allowed_recipients ≡ codes "[]") × (p.policy.denied_recipients ≡ codes "[]")
  pub lasting : p.policy.expires_at ≡ none
  pub is_on : p.policy.enabled ≡ true

module _ (crypto : Crypto) (good : IsEncoding crypto) (argon : Argon) (lib : Addressing)
    (draw : SignupDraw) (draws : DrawsKeys draw) (req : SignupRequest) (s : Registry) where
  -- The account that the answer is about.
  pub record IsOpened (answer : Reply SignupResponse) (s' : Registry) : Type 0 where
    pub status : answer.status ≡ 201
    pub tenant : Tenant
    pub tenants : s'.tenants ≡ tenant ∷ s.tenants
    pub tenant_named : tenant.id ≡ answer.body.tenant.id
    pub tenant_address : tenant.primary_email ≡ lib.to_lower (trim_space req.email)
    pub tenant_on : (tenant.plan ≡ codes "free") × (tenant.status ≡ codes "active")
    pub address : answer.body.tenant.primary_email ≡ lib.to_lower (trim_space req.email)
    pub owner : answer.body.user.role ≡ codes "owner"
    pub test_key :
        (row : ApiKey) × (row.tenant_id ≡ answer.body.tenant.id)
        × (row.id ≡ answer.body.test.id)
        × (either_auth crypto
              (codes "staging")
              s'.api_keys
              (codes "Bearer " ++ answer.body.test.key)
            ≡ ok (locals_of row))
    pub live_key :
        (row : ApiKey) × (row.tenant_id ≡ answer.body.tenant.id)
        × (row.id ≡ answer.body.live.id)
        × (either_auth crypto
              (codes "production")
              s'.api_keys
              (codes "Bearer " ++ answer.body.live.key)
            ≡ ok (locals_of row))
    pub policy : PolicyEntry
    pub policy_found : get_tenant_default answer.body.tenant.id s'.policies ≡ some policy
    pub policy_conservative : IsConservative answer.body.tenant.id policy

  module _ (hash : Text) (test live : MintedKey)
      (test_minted : mint_api_key crypto (codes "test") draw.test_random ≡ ok test)
      (live_minted : mint_api_key crypto (codes "live") draw.live_random ≡ ok live)
      (free : key_insertable (live_row draw live) (test_row draw test ∷ s.api_keys) ≡ true) where
    abbrev keys : List ApiKey
    keys = live_row draw live ∷ test_row draw test ∷ s.api_keys
