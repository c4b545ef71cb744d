-- ===== src/SessionKeys/Custody.antt =====
-- Session keys of wallets that their owner holds (internal/sessionkey/user_custody.go).
pub mod Activation
use atara_pay.Base.{
  ℕ, ◌/◌, ◌-◌, Bool, true, false, not, Option, none, some, List, [], ◌∷◌, Text, codes, text_eq,
  Result, ok, err, ◌>>=◌, ◌>>◌, if◌then◌else◌,
}
use atara_pay.Limits.Calendar.{Time}
use atara_pay.SessionKeys.Rows.{
  KeyStatus, pending_authorize, active, SessionKey, KeyStore, update_key, get_key, pgx_opt_text,
}
use atara_pay.SessionKeys.Input.{
  MintInput, MintError, no_adapter, no_wallet, wrong_rail, wrong_custody, generate_failed,
  encrypt_failed, chain_failed, Wallet, KeyRestrictions, Ports, require, validate_mint, expiry_of,
  mode_of, next_rotation_of, daily_limits, second, unix_epoch,
}
use atara_pay.SessionKeys.Mint.{or_fail, policy_row, key_row, persist}

pub record Prepared : Type 0 where
  pub id : Text
  pub public_address : Text
  pub private_key : Text
  pub policy_id : Text
  pub expires_at : Time
  pub next_rotation_at : Time
  pub rotation_mode : Text
  pub unsigned_authorize : Text

-- `BuildAuthorizeKey`: the unsigned transaction for the wallet's address, the key's address and its
-- restrictions.
module _ (ports : Ports) (build : Text → Text → KeyRestrictions → Option Text) where
  open ports use {now}

  -- `PrepareUserCustody`
  unfoldable pub prepare_user_custody :
      MintInput → KeyStore → Result MintError (Prepared × KeyStore)
  prepare_user_custody input store =
      validate_mint now input
      >> require ports.adapter no_adapter
      >> (or_fail (ports.get_wallet input.wallet_id) no_wallet >>= λ wallet.
          require (text_eq wallet.rail (codes "tempo")) wrong_rail
          >> require (text_eq wallet.custody (codes "user")) wrong_custody
          >> (or_fail ports.generate generate_failed >>= λ pair.
              or_fail (ports.encrypt pair.0) encrypt_failed >>= λ blob.
              or_fail
                (build wallet.address pair.1 (record {
                  expiry = expiry_of now input / second - unix_epoch;
                  limits = daily_limits input.limits.daily_usd;
                }))
                chain_failed
              >>= λ unsigned.
                  persist ports (policy_row ports input)
                    (key_row ports input pair.1 blob pending_authorize true []) store
                  >>= λ store'. ok (
                    record {
                      id = ports.session_key_id;
                      public_address = pair.1;
                      private_key = pair.0;
                      policy_id = ports.policy_id;
                      expires_at = expiry_of now input;
                      next_rotation_at = next_rotation_of now input;
                      rotation_mode = mode_of input;
                      unsigned_authorize = unsigned;
                    },
                    store',
                  )))

pub data SubmitError : Type 0 where
  submit_no_adapter row_missing not_found not_pending broadcast_failed activate_failed : SubmitError

-- The adapter, `BroadcastSignedTx` and whether the last statement fails.
pub record Chain : Type 0 where
  pub adapter : Bool
  pub broadcast : Text → Option Text
  pub activate_fails : Bool

abbrev pub is_pending : KeyStatus → Bool
is_pending pending_authorize = true
is_pending s = false

-- The statement that activates a row: it has no condition on the status.
unfoldable pub activate : Text → Text → KeyStore → KeyStore
activate id hash store = record store {
  keys = update_key id (λ k. record k { status = active; on_chain_tx_hash = some hash }) store.keys;
}

module _ (chain : Chain) where
  -- The last two steps of `SubmitAuthorize`.
  unfoldable pub broadcast_and_activate :
      SessionKey → Text → KeyStore → Result SubmitError Text × KeyStore
  broadcast_and_activate row signed store = elim (chain.broadcast signed) [
    | none ↦ (err broadcast_failed, store)
    | some hash ↦
        if chain.activate_fails
        then (err activate_failed, store)
        else (ok hash, activate row.id hash store)
  ]

  unfoldable pub submit_row :
      Text → Option SessionKey → Text → KeyStore → Result SubmitError Text × KeyStore
  submit_row tenant none signed store = (err row_missing, store)
  submit_row tenant (some row) signed store =
      if text_eq row.tenant_id tenant
      then if is_pending row.status
        then broadcast_and_activate row signed store
        else (err not_pending, store)
      else (err not_found, store)

  -- `SubmitAuthorize`
  unfoldable pub submit_authorize :
      Text → Text → Text → KeyStore → Result SubmitError Text × KeyStore
  submit_authorize tenant id signed store =
      if chain.adapter
      then submit_row tenant (get_key id store.keys) signed store
      else (err submit_no_adapter, store)
