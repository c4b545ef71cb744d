-- ===== src/Keystore/Rotation.antt =====
-- Reading a secret back, across a rotation of the master keys (internal/keystore/keystore.go,
-- loader.go).
use mathlib.Core.Option.{some-injective}
use atara_pay.Base.{
  ℕ, ◌≡◌, refl, sym, ap, ◌∙◌, inl, inr, true, false, not, Option, none, some, List, [], ◌∷◌, ◌++◌,
  Text, codes, is_nil, length, length-append, take-length, drop-length, ltb, ok, bind-ok,
  past_check, ok-injective, Bool-cases, is_on, arith,
}
use atara_pay.Base.Int.{ℤ}
use atara_pay.Keystore.{
  Gcm, MasterKeys, AesKeystore, same_version, key_of, all_long, is_missing, master_key_bytes,
  new_aes_keystore, encrypt, decrypt, read_variables, pick_current, from_env,
}

-- What AES-GCM promises: what was sealed is opened, under a key and a nonce of the right lengths.
pub record IsGcm (lib : Gcm) : Type 0 where
  pub opens :
      (key nonce plaintext : List ℕ)
      → length key ≡ master_key_bytes
      → length nonce ≡ lib.nonce_size
      → lib.open_sealed key nonce (lib.seal key nonce plaintext) ≡ some plaintext

key_of-long :
    (v : ℤ) (keys : MasterKeys) (k : List ℕ)
    → all_long keys ≡ true
    → key_of v keys ≡ some k
    → length k ≡ master_key_bytes
unfolding key_of all_long
key_of-long v [] k long held = absurd (cc)
key_of-long v ((w, j) ∷ keys) k long held =
    let first_long : length j ≡ master_key_bytes = ground arith in
    elim (Bool-cases (same_version w v)) [
      | inl e ↦
          let same : ◌≡◌ {A = Option (List ℕ)} (some j) (some k) = (rw e at held) in
          ap length (sym (some-injective _ _ same)) ∙ first_long
      | inr e ↦ key_of-long v keys k (ground arith) (rw e at held)
    ]

-- A keystore that `NewAESKeystore` builds.
pub record IsSound (ks : AesKeystore) : Type 0 where
  pub key : List ℕ
  pub held : key_of ks.current ks.keys ≡ some key
  pub long : length key ≡ master_key_bytes

is_there : (o : Option (List ℕ)) → is_missing o ≡ false → (k : List ℕ) × (o ≡ some k)
is_there none h = absurd (cc)
is_there (some k) h = (k, refl)

new_aes_keystore-IsSound :
    (keys : MasterKeys) (current : ℤ) (ks : AesKeystore)
    → new_aes_keystore keys current ≡ ok ks
    → IsSound ks
unfolding new_aes_keystore
new_aes_keystore-IsSound keys current ks h =
    let (some_keys, h1) =
      past_check (is_nil keys) (codes "keystore: at least one master key is required") _ _ h in
    let (long, h2) =
      past_check (not (all_long keys)) (codes "keystore: key must be 32 bytes") _ _ h1 in
    let (there, h3) =
      past_check (is_missing (key_of current keys))
        (codes "keystore: current version not in keystore") _ _ h2 in
    let (k, held) = is_there (key_of current keys) there in
    let same = ok-injective _ _ h3 in
    record {
      key = k;
      held = ap (λ s. key_of s.current s.keys) (sym same) ∙ held;
      long = key_of-long current keys k (is_on _ long) held;
    }

module _ (lib : Gcm) (good : IsGcm lib) where
  from_env-IsSound : (env : List Text) (ks : AesKeystore) → from_env lib env ≡ ok ks → IsSound ks
  unfolding from_env
  from_env-IsSound env ks h =
      let (keys, read, h1) = bind-ok (read_variables lib env []) _ _ h in
      let (some_keys, h2) =
        past_check (is_nil keys) (codes "keystore: no ATARA_PAY_MASTER_KEY_V* env vars set") _ _
          h1 in
      let (current, picked, built) = bind-ok (pick_current lib env keys) _ _ h2 in
      new_aes_keystore-IsSound keys current ks built

  read_back :
      (ks : AesKeystore) (version : ℤ) (key nonce plaintext : List ℕ)
      → key_of version ks.keys ≡ some key
      → length key ≡ master_key_bytes
      → length nonce ≡ lib.nonce_size
      → decrypt lib ks (nonce ++ lib.seal key nonce plaintext) version ≡ ok plaintext
  unfolding decrypt
  read_back ks version key nonce plaintext held long sized =
      let ct = lib.seal key nonce plaintext in
      let enough : ltb (length (nonce ++ ct)) (length nonce) ≡ false =
        rw (length-append nonce ct) (ground arith) in
      rw held (
        rw (sym sized) (
          rw (enough, take-length nonce ct, drop-length nonce ct)
            (rw (good.opens key nonce plaintext long sized) refl)))

  -- Under a keystore that was read from the environment, every secret can be encrypted with a nonce
  -- of the right length, and any keystore that has the same key under the version of the ciphertext
  -- decrypts it to that secret, whatever its other keys and its current version are.
  pub decrypt-encrypt :
      (env : List Text) (ks later : AesKeystore) (nonce plaintext : List ℕ)
      → from_env lib env ≡ ok ks
      → length nonce ≡ lib.nonce_size
      → key_of ks.current later.keys ≡ key_of ks.current ks.keys
      → (blob : List ℕ) × (encrypt lib ks (some nonce) plaintext ≡ ok (blob, ks.current))
        × (decrypt lib later blob ks.current ≡ ok plaintext)
  unfolding encrypt
  decrypt-encrypt env ks later nonce plaintext built sized kept =
      let sound = from_env-IsSound env ks built in
      (
        nonce ++ lib.seal sound.key nonce plaintext,
        rw sound.held refl,
        read_back later ks.current sound.key nonce plaintext (kept ∙ sound.held) sound.long sized,
      )
