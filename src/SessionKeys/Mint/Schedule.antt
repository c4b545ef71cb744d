-- ===== src/SessionKeys/Mint/Schedule.antt =====
-- When a minted key rotates and expires, and what minting writes (internal/sessionkey/service.go).
use mathlib.Core.Path.{subst}
use atara_pay.Base.{
  bind-ok, ℕ, ◌+◌, ◌*◌, ◌≤◌, ◌≡◌, refl, ap, sym, Bool, true, false, not, [], ◌∷◌, ◌++◌, Result, ok,
  err, ◌>>◌, ◌||◌, ltb, arith, Bool-cases, inl, inr, if◌then◌else◌,
}
use atara_pay.Base.Int.{pos}
use atara_pay.Limits.Calendar.{Time, is_zero_time, after}
use atara_pay.SessionKeys.Rows.{
  SessionKey, PolicyRow, KeyStore, active, pgx_opt_text, pgx_opt_timestamp, pgx_int_usd,
}
use atara_pay.SessionKeys.Input.{
  MintInput, Minted, MintError, database_failed, expired_input, require, default_ttl, Ports,
  validate_mint, expiry_of, interval_of, next_rotation_of, second, generate_failed, encrypt_failed,
}
use atara_pay.SessionKeys.Mint.{
  chain_hash, mint, persist, policy_row, key_row, or_fail, has_hash, hash_text,
}

-- What a check that passed says of its parts.
pub last-ok :
    {E A : Type 0} (m : Result E (Unit {0})) (k : Result E A) (a : A) → (m >> k) ≡ ok a → k ≡ ok a
last-ok (ok u) k a h = h
last-ok (err e) k a h = absurd (cc)

require-ok : (b : Bool) (e : MintError) → require b e ≡ ok tt → b ≡ true
require-ok true e h = refl
require-ok false e h = absurd (cc)

not_past :
    (now t : Time)
    → (is_zero_time t || not (after now t)) ≡ true
    → now ≤ (if is_zero_time t then now + default_ttl else t)
not_past now t h = ground arith

validate_mint-expiry :
    (now : Time) (input : MintInput) → validate_mint now input ≡ ok tt → now ≤ expiry_of now input
unfolding validate_mint
validate_mint-expiry now input h =
    not_past now input.expires_at (require-ok _ expired_input (last-ok _ _ tt h))

earlier :
    (now next expiry : ℕ)
    → now ≤ next
    → now ≤ expiry
    → (now ≤ (if ltb expiry next then expiry else next))
      × ((if ltb expiry next then expiry else next) ≤ expiry)
earlier now next expiry h k = ground arith

next_rotation_of-bounds :
    (now : Time) (input : MintInput)
    → now ≤ expiry_of now input
    → (now ≤ next_rotation_of now input) × (next_rotation_of now input ≤ expiry_of now input)
unfolding next_rotation_of
next_rotation_of-bounds now input h =
    earlier now (now + interval_of input * second) (expiry_of now input) (omega arith) h

pub ok-injective : {A : Type 0} (a b : A) (x : Result MintError A) → x ≡ ok a → x ≡ ok b → a ≡ b
ok-injective a b x h k = cc

module _ (ports : Ports) where
  open ports use {now}

  -- A key whose rotation comes between now and its expiry, its row, and the row of its policy.
  pub record IsIssued (input : MintInput) (store : KeyStore) (minted : Minted) (store' : KeyStore)
      : Type 0 where
    pub in_time : (now ≤ minted.next_rotation_at) × (minted.next_rotation_at ≤ minted.expires_at)
    pub key : SessionKey
    pub policy : PolicyRow
    pub keys_after : store'.keys ≡ store.keys ++ (key ∷ [])
    pub policies_after : store'.policies ≡ store.policies ++ (policy ∷ [])
    pub key_points : key.policy_id ≡ pgx_opt_text policy.policy.id
    pub policy_points : policy.scope_id ≡ pgx_opt_text key.id
    pub is_on : (key.status ≡ active) × (policy.policy.enabled ≡ true)
    pub expires_with : key.expires_at ≡ minted.expires_at
    pub rotates_with : key.next_rotation_at ≡ pgx_opt_timestamp minted.next_rotation_at
    pub rotation :
        (key.rotation_mode ≡ minted.rotation_mode)
        × (key.rotation_interval_s ≡ pos (interval_of input))
    pub named :
        (key.id ≡ minted.id)
        × (key.public_address ≡ minted.public_address)
        × (policy.policy.id ≡ minted.policy_id)
    pub owned :
        (key.tenant_id ≡ input.tenant_id)
        × (key.wallet_id ≡ input.wallet_id)
        × (key.group_id ≡ input.group_id)
        × (policy.tenant_id ≡ input.tenant_id)
    pub capped :
        (policy.policy.per_tx_amount ≡ pgx_int_usd input.limits.per_tx_usd)
        × (policy.policy.daily_amount ≡ pgx_int_usd input.limits.daily_usd)
        × (policy.policy.weekly_amount ≡ pgx_int_usd input.limits.weekly_usd)
        × (policy.policy.monthly_amount ≡ pgx_int_usd input.limits.monthly_usd)

  -- What the transaction leaves.
  pub persist-appends :
      (policy : PolicyRow) (key : SessionKey) (store store' : KeyStore)
      → persist ports policy key store ≡ ok store'
      → (store'.keys ≡ store.keys ++ (key ∷ []))
        × (store'.policies ≡ store.policies ++ (policy ∷ []))
  unfolding persist
  persist-appends policy key store store' h = elim (Bool-cases ports.commit_fails) [
    | inl broken ↦ (let no : err database_failed ≡ ok store' = rw broken at h in absurd (cc))
    | inr fine ↦
        let same = ok-injective _ store' _ refl (rw fine at h) in
        (ap (λ s. s.keys) (sym same), ap (λ s. s.policies) (sym same))
  ]

  -- A mint that succeeds adds one policy and one key and nothing else; they name each other and are
  -- of the request's tenant and wallet, the key is active with the address of the answer, its
  -- policy is enabled with the four caps of the request, the row of the key has the expiry, the
  -- mode and the next rotation that the answer shows, and that rotation is not before now nor after
  -- the expiry.
  pub mint-IsIssued :
      (input : MintInput) (store : KeyStore) (minted : Minted) (store' : KeyStore)
      → mint ports input store ≡ ok (minted, store')
      → IsIssued input store minted store'
  unfolding mint policy_row key_row
  mint-IsIssued input store minted store' h =
      let valid = bind-ok (validate_mint now input) _ (minted, store') h in
      let pair = bind-ok (or_fail ports.generate generate_failed) _ (minted, store') valid.2 in
      let blob =
        bind-ok (or_fail (ports.encrypt pair.0.0) encrypt_failed) _ (minted, store') pair.2 in
      let hash = bind-ok (chain_hash ports input pair.0.1) _ (minted, store') blob.2 in
      let key = key_row ports input pair.0.1 blob.0 active (has_hash hash.0) (hash_text hash.0) in
      let saved =
        bind-ok (persist ports (policy_row ports input) key store) _ (minted, store') hash.2 in
      let rows = persist-appends (policy_row ports input) key store saved.0 saved.1 in
      let times = next_rotation_of-bounds now input (validate_mint-expiry now input valid.1) in
      subst (λ (x : Minted × KeyStore). IsIssued input store x.0 x.1)
        (ok-injective _ (minted, store') _ refl saved.2)
        (record {
          in_time = times;
          key = key;
          policy = policy_row ports input;
          keys_after = rows.0;
          policies_after = rows.1;
          key_points = refl;
          policy_points = refl;
          is_on = (refl, refl);
          expires_with = refl;
          rotates_with = refl;
          rotation = (refl, refl);
          named = (refl, refl, refl);
          owned = (refl, refl, refl, refl);
          capped = (refl, refl, refl, refl);
        })
