-- ===== src/Keystore.antt =====
-- Secrets encrypted under versions of a master key (internal/keystore/keystore.go, loader.go).
pub mod Rotation
mod Tests
use atara_pay.Base.{
  ℕ, ◌==◌, Bool, true, false, ◌&&◌, ◌||◌, not, Option, none, some, List, [], ◌∷◌, ◌++◌, map, Text,
  codes, text_eq, is_nil, has_prefix, length, take, ltb, Result, ok, err, ◌>>=◌, if◌then◌else◌,
  drop,
}
use atara_pay.Base.Int.{ℤ, pos, negsuc, ltb_ℤ}
use atara_pay.Limits.Amount.{parse_int}

-- AES-256-GCM: the size of a nonce, `Seal` and `Open` under a key, a nonce and no further data;
-- and base64.
pub record Gcm : Type 0 where
  pub nonce_size : ℕ
  pub seal : List ℕ → List ℕ → List ℕ → List ℕ
  pub open_sealed : List ℕ → List ℕ → List ℕ → Option (List ℕ)
  pub decode_base64 : Text → Option (List ℕ)

-- Versions are in int16.
abbrev pub MasterKeys : Type 0
MasterKeys = List (ℤ × List ℕ)

pub record AesKeystore : Type 0 where
  pub keys : MasterKeys
  pub current : ℤ

abbrev pub same_version : ℤ → ℤ → Bool
same_version v w = not (ltb_ℤ v w) && not (ltb_ℤ w v)

-- `keys[version]`
unfoldable pub key_of : ℤ → MasterKeys → Option (List ℕ)
key_of v [] = none
key_of v ((w, k) ∷ keys) = if same_version w v then some k else key_of v keys

unfoldable pub without_version : ℤ → MasterKeys → MasterKeys
without_version v [] = []
without_version v ((w, k) ∷ keys) =
    let rest = without_version v keys in if same_version w v then rest else (w, k) ∷ rest

-- `keys[version] = key`
unfoldable pub put_key : ℤ → List ℕ → MasterKeys → MasterKeys
put_key v k keys = (v, k) ∷ without_version v keys

-- `MasterKeyBytes`
abbrev pub master_key_bytes : ℕ
master_key_bytes = 32

unfoldable pub all_long : MasterKeys → Bool
all_long [] = true
all_long ((v, k) ∷ keys) = length k == master_key_bytes && all_long keys

abbrev pub is_missing : Option (List ℕ) → Bool
is_missing none = true
is_missing (some k) = false

-- `NewAESKeystore`
unfoldable pub new_aes_keystore : MasterKeys → ℤ → Result Text AesKeystore
new_aes_keystore keys current =
    if is_nil keys
    then err (codes "keystore: at least one master key is required")
    else if not (all_long keys)
    then err (codes "keystore: key must be 32 bytes")
    else if is_missing (key_of current keys)
    then err (codes "keystore: current version not in keystore")
    else ok (record { keys = keys; current = current })

abbrev pub needed {ℓ} : {A : Type ℓ} → Text → Option A → Result Text A
needed e none = err e
needed e (some a) = ok a

module _ (lib : Gcm) where
  -- `Encrypt`; the random source gives a nonce, or `none` on an error. `NewAESKeystore` has seen to
  -- the current key, without which the code panics.
  unfoldable pub encrypt : AesKeystore → Option (List ℕ) → List ℕ → Result Text (List ℕ × ℤ)
  encrypt ks random plaintext = do
    key ← needed (codes "nil AEAD") (key_of ks.current ks.keys)
    nonce ← needed (codes "keystore: read nonce") random
    ok (nonce ++ lib.seal key nonce plaintext, ks.current)

  -- `Decrypt`
  unfoldable pub decrypt : AesKeystore → List ℕ → ℤ → Result Text (List ℕ)
  decrypt ks blob version = do
    key ← needed (codes "keystore: unknown key version") (key_of version ks.keys)
    if ltb (length blob) lib.nonce_size
        then err (codes "keystore: ciphertext shorter than nonce")
        else needed (codes "keystore: decrypt failed")
            (lib.open_sealed key (take lib.nonce_size blob) (drop lib.nonce_size blob))

  -- `strings.Cut` at "="
  unfoldable pub cut_equals : Text → Option (Text × Text)
  cut_equals [] = none
  cut_equals (c ∷ s) =
      let rest = cut_equals s in
      if c == b'='
      then some ([], s)
      else elim rest [ none ↦ none | some (name, value) ↦ some (c ∷ name, value) ]

  -- `strconv.ParseInt(s, 10, 16)`
  abbrev pub in_int16 : Option ℤ → Option ℤ
  in_int16 none = none
  in_int16 (some (pos n)) = if ltb n 32_768 then some (pos n) else none
  in_int16 (some (negsuc n)) = if ltb n 32_768 then some (negsuc n) else none

  abbrev pub env_key_prefix : Text
  env_key_prefix = codes "ATARA_PAY_MASTER_KEY_V"

  abbrev pub env_current_name : Text
  env_current_name = codes "ATARA_PAY_KEYSTORE_CURRENT_VERSION"

  -- One variable in the loop of `FromEnv`.
  unfoldable pub read_variable : MasterKeys → Option (Text × Text) → Result Text MasterKeys
  read_variable keys none = ok keys
  read_variable keys (some (name, value)) =
      if not (has_prefix name env_key_prefix) then ok keys else do
        version ←
            needed (codes "keystore: malformed env var")
              (in_int16 (parse_int (drop (length env_key_prefix) name)))
        key ← needed (codes "keystore: base64 decode") (lib.decode_base64 value)
        ok (put_key version key keys)

  -- The loop of `FromEnv` over `os.Environ()`.
  unfoldable pub read_variables : List Text → MasterKeys → Result Text MasterKeys
  read_variables [] keys = ok keys
  read_variables (kv ∷ env) keys = read_variable keys (cut_equals kv) >>= read_variables env

  -- `os.Getenv`, empty where the variable is not set.
  unfoldable pub get_env : Text → List Text → Text
  get_env name [] = []
  get_env name (kv ∷ env) =
      let rest = get_env name env in
      elim (cut_equals kv) [
        | none ↦ rest
        | some (n, value) ↦ if text_eq n name then value else rest
      ]

  -- The first of the versions once they are sorted downwards.
  unfoldable pub highest : ℤ → MasterKeys → ℤ
  highest v [] = v
  highest v ((w, k) ∷ keys) = highest (if ltb_ℤ v w then w else v) keys

  abbrev pub highest_of : MasterKeys → Result Text ℤ
  highest_of [] = err (codes "index out of range")
  highest_of ((v, k) ∷ keys) = ok (highest v keys)

  -- `pickCurrent`, on at least one key.
  unfoldable pub pick_current : List Text → MasterKeys → Result Text ℤ
  pick_current env keys = if is_nil (get_env env_current_name env) then highest_of keys else do
    version ←
        needed (codes "keystore: malformed current version")
          (in_int16 (parse_int (get_env env_current_name env)))
    if is_missing (key_of version keys)
        then err (codes "keystore: no such master key")
        else ok version

  -- `FromEnv`
  unfoldable pub from_env : List Text → Result Text AesKeystore
  from_env env = do
    keys ← read_variables env []
    if is_nil keys
        then err (codes "keystore: no ATARA_PAY_MASTER_KEY_V* env vars set")
        else (pick_current env keys >>= new_aes_keystore keys)
