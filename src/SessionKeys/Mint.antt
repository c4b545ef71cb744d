-- ===== src/SessionKeys/Mint.antt =====
-- Minting a session key (internal/sessionkey/service.go).
pub mod Schedule
pub mod Caps
use atara_pay.Base.{
  ℕ, ◌+◌, ◌*◌, ◌/◌, ◌-◌, ◌%◌, ◌^◌, Bool, true, false, not, ◌&&◌, ◌||◌, Option, none, some, List, [],
  ◌∷◌, ◌++◌, Text, codes, text_eq, is_nil, any, ltb, Result, ok, err, ◌>>=◌, ◌>>◌, if◌then◌else◌,
}
use atara_pay.Base.Int.{ℤ, pos, negsuc, ltb_ℤ, leb_ℤ}
use atara_pay.Limits.Calendar.{Time, is_zero_time, after}
use atara_pay.Limits.Policy.{LimitPolicy, ScopeType, session_key_scope}
use atara_pay.SessionKeys.Rows.{
  KeyStatus, active, SessionKey, PolicyRow, KeyStore, pgx_opt_text, pgx_opt_timestamp, pgx_int_usd,
}
use atara_pay.SessionKeys.Input.{
  MintError, MintInput, Minted, Ports, Wallet, chain_failed, daily_limits, database_failed,
  decrypt_failed, encrypt_failed, expiry_of, generate_failed, interval_of, mode_of,
  next_rotation_of, no_adapter, no_master_key, no_wallet, require, second, unix_epoch,
  validate_mint, wrong_custody, wrong_rail,
}

-- `marshalStringList`
abbrev pub string_list : (List Text → Text) → List Text → Text
string_list marshal xs = if is_nil xs then codes "[]" else marshal xs

abbrev pub or_fail {ℓ} : {A : Type ℓ} → Option A → MintError → Result MintError A
or_fail none e = err e
or_fail (some a) e = ok a

abbrev pub has_master : Wallet → Option ℕ
has_master wallet = if is_nil wallet.encrypted_private_key then none else wallet.key_version

abbrev pub has_hash : Option Text → Bool
has_hash none = false
has_hash (some h) = true

abbrev pub hash_text : Option Text → Text
hash_text none = []
hash_text (some h) = h

module _ (ports : Ports) where
  open ports use {now}

  -- `runOnChainAuthorize`
  unfoldable pub run_on_chain_authorize : MintInput → Text → Time → Result MintError Text
  run_on_chain_authorize input address expires_at =
      require ports.adapter no_adapter
      >> (or_fail (ports.get_wallet input.wallet_id) no_wallet >>= λ wallet.
          require (text_eq wallet.rail (codes "tempo")) wrong_rail
          >> require (text_eq wallet.custody (codes "platform")) wrong_custody
          >> (or_fail (has_master wallet) no_master_key >>= λ version.
              or_fail (ports.decrypt wallet.encrypted_private_key version) decrypt_failed
              >>= λ master.
                  or_fail
                    (ports.authorize master wallet.address address (record {
                      expiry = expires_at / second - unix_epoch;
                      limits = daily_limits input.limits.daily_usd;
                    }))
                    chain_failed))

  -- Step 3b: the hash, where the caller asks for enforcement on chain.
  unfoldable pub chain_hash : MintInput → Text → Result MintError (Option Text)
  chain_hash input address =
      if input.on_chain_enforce
      then (run_on_chain_authorize input address (expiry_of now input) >>= λ hash. ok (some hash))
      else ok none

  -- The row of `limit_policies` of step 4a.
  unfoldable pub policy_row : MintInput → PolicyRow
  policy_row input = record {
    tenant_id = input.tenant_id;
    scope_type = session_key_scope;
    scope_id = pgx_opt_text ports.session_key_id;
    policy = record {
      id = ports.policy_id;
      per_tx_amount = pgx_int_usd input.limits.per_tx_usd;
      daily_amount = pgx_int_usd input.limits.daily_usd;
      weekly_amount = pgx_int_usd input.limits.weekly_usd;
      monthly_amount = pgx_int_usd input.limits.monthly_usd;
      timezone = codes "UTC";
      allowed_recipients = string_list ports.marshal_strings input.limits.allowed_recipients;
      denied_recipients = string_list ports.marshal_strings input.limits.denied_recipients;
      expires_at = none;
      enabled = true;
    };
  }

  -- The row of `session_keys` of step 4b.
  unfoldable pub key_row : MintInput → Text → Text × ℕ → KeyStatus → Bool → Text → SessionKey
  key_row input address (blob, version) status native hash = record {
    id = ports.session_key_id;
    tenant_id = input.tenant_id;
    wallet_id = input.wallet_id;
    group_id = input.group_id;
    name = input.name;
    public_address = address;
    encrypted_priv_key = blob;
    key_version = version;
    policy_id = pgx_opt_text ports.policy_id;
    rotation_mode = mode_of input;
    rotation_interval_s = pos (interval_of input);
    next_rotation_at = pgx_opt_timestamp (next_rotation_of now input);
    expires_at = expiry_of now input;
    status = status;
    revoked_reason = none;
    revoked_at = none;
    rail_native = native;
    on_chain_tx_hash = pgx_opt_text hash;
  }

  -- The transaction of step 4.
  unfoldable pub persist : PolicyRow → SessionKey → KeyStore → Result MintError KeyStore
  persist policy key store =
      if ports.commit_fails
      then err database_failed
      else ok
          (record { policies = store.policies ++ (policy ∷ []); keys = store.keys ++ (key ∷ []) })

  -- `Mint`: the new tables are part of the result, so an error leaves them as they were.
  unfoldable pub mint : MintInput → KeyStore → Result MintError (Minted × KeyStore)
  mint input store =
      validate_mint now input
      >> (or_fail ports.generate generate_failed >>= λ pair.
          or_fail (ports.encrypt pair.0) encrypt_failed >>= λ blob.
          chain_hash input pair.1 >>= λ hash.
          persist (policy_row input)
            (key_row input pair.1 blob active (has_hash hash) (hash_text hash)) store
          >>= λ store'. ok (
            record {
              id = ports.session_key_id;
              public_address = pair.1;
              private_key = pair.0;
              policy_id = ports.policy_id;
              expires_at = expiry_of now input;
              next_rotation_at = next_rotation_of now input;
              rotation_mode = mode_of input;
              rail_native = has_hash hash;
              on_chain_tx_hash = hash_text hash;
            },
            store',
          ))
