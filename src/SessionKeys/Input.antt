-- ===== src/SessionKeys/Input.antt =====
-- What a mint takes and calls, its validation and its timestamps (internal/sessionkey/service.go).
-- Key generation, the keystore, the database and the Tempo adapter are parameters.
use atara_pay.Base.{
  ℕ, ◌+◌, ◌*◌, ◌-◌, ◌%◌, ◌^◌, Bool, true, false, not, ◌||◌, Option, List, [], ◌∷◌, Text, codes,
  text_eq, is_nil, any, ltb, Result, ok, err, ◌>>◌, if◌then◌else◌,
}
use atara_pay.Base.Int.{ℤ, pos, negsuc, ltb_ℤ}
use atara_pay.Limits.Calendar.{Time, is_zero_time, after}

pub record Limits : Type 0 where
  pub per_tx_usd : ℤ
  pub daily_usd : ℤ
  pub weekly_usd : ℤ
  pub monthly_usd : ℤ
  pub allowed_recipients : List Text
  pub denied_recipients : List Text

pub record MintInput : Type 0 where
  pub tenant_id : Text
  pub wallet_id : Text
  pub group_id : Text
  pub name : Text
  pub limits : Limits
  pub rotation_mode : Text
  pub rotation_interval_s : ℤ
  pub expires_at : Time
  pub on_chain_enforce : Bool

pub record Minted : Type 0 where
  pub id : Text
  pub public_address : Text
  pub private_key : Text
  pub policy_id : Text
  pub expires_at : Time
  pub next_rotation_at : Time
  pub rotation_mode : Text
  pub rail_native : Bool
  pub on_chain_tx_hash : Text

pub data MintError : Type 0 where
  ids_required name_required invalid_rotation_mode negative_caps expired_input : MintError
  generate_failed encrypt_failed : MintError
  no_adapter no_wallet wrong_rail wrong_custody no_master_key decrypt_failed chain_failed :
      MintError
  database_failed : MintError

-- The columns of `wallets` that minting reads.
pub record Wallet : Type 0 where
  pub address : Text
  pub rail : Text
  pub custody : Text
  pub encrypted_private_key : Text
  pub key_version : Option ℕ

-- The restrictions of an on-chain key: its expiry in seconds and its daily limit in microunits,
-- for transfers of pathUSD only.
pub record KeyRestrictions : Type 0 where
  pub expiry : ℕ
  pub limits : List ℤ

-- What minting calls: `generate` is a private key and its address; `commit_fails` that a step of
-- the database transaction fails; `authorize` takes the master key, the wallet's address, the key's
-- address and its restrictions.
pub record Ports : Type 0 where
  pub generate : Option (Text × Text)
  pub encrypt : Text → Option (Text × ℕ)
  pub decrypt : Text → ℕ → Option Text
  pub get_wallet : Text → Option Wallet
  pub adapter : Bool
  pub authorize : Text → Text → Text → KeyRestrictions → Option Text
  pub commit_fails : Bool
  pub marshal_strings : List Text → Text
  pub session_key_id : Text
  pub policy_id : Text
  pub now : Time

abbrev pub rotation_modes : List Text
rotation_modes = [] ∷ codes "auto_rotate" ∷ codes "notify_only" ∷ codes "hard_expire" ∷ []

abbrev pub is_negative : ℤ → Bool
is_negative z = ltb_ℤ z (pos 0)

abbrev pub require : Bool → MintError → Result MintError (Unit {0})
require true e = ok tt
require false e = err e

-- `validateMint`
unfoldable pub validate_mint : Time → MintInput → Result MintError (Unit {0})
validate_mint now input =
    let caps = input.limits in
    require (not (is_nil input.tenant_id || (is_nil input.wallet_id || is_nil input.group_id)))
      ids_required
    >> require (not (is_nil input.name)) name_required
    >> require (any (λ mode. text_eq mode input.rotation_mode) rotation_modes) invalid_rotation_mode
    >> require
        (not (
          is_negative caps.per_tx_usd
          || (is_negative caps.daily_usd
              || (is_negative caps.weekly_usd || is_negative caps.monthly_usd))))
        negative_caps
    >> require (is_zero_time input.expires_at || not (after now input.expires_at)) expired_input

abbrev pub second : ℕ
second = 1_000_000_000

abbrev pub default_ttl : ℕ
default_ttl = 24 * 3600 * second

-- The timestamps and the rotation of step 3.
abbrev pub expiry_of : Time → MintInput → Time
expiry_of now input = if is_zero_time input.expires_at then now + default_ttl else input.expires_at

abbrev pub mode_of : MintInput → Text
mode_of input = if is_nil input.rotation_mode then codes "auto_rotate" else input.rotation_mode

-- The interval in seconds, a day where the input has none.
abbrev pub positive_or_day : ℤ → ℕ
positive_or_day (pos n) = if ltb 0 n then n else 86400
positive_or_day (negsuc n) = 86400

abbrev pub interval_of : MintInput → ℕ
interval_of input = positive_or_day input.rotation_interval_s

unfoldable pub next_rotation_of : Time → MintInput → Time
next_rotation_of now input =
    let next = now + interval_of input * second in
    if after next (expiry_of now input) then expiry_of now input else next

-- The Unix epoch in seconds since the zero time.
abbrev pub unix_epoch : ℕ
unix_epoch = 62_135_596_800

-- `DailyUSD * 1_000_000` in int64.
abbrev pub signed_64 : ℕ → ℤ
signed_64 m = if ltb m (2 ^ 63) then pos m else negsuc (2 ^ 64 - 1 - m)

unfoldable pub daily_limits : ℤ → List ℤ
daily_limits (pos n) = if ltb 0 n then signed_64 (n * 1_000_000 % 2 ^ 64) ∷ [] else []
daily_limits (negsuc n) = []
