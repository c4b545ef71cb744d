-- ===== src/Keystore/Tests.antt =====
-- Concrete runs of the keystore.
use atara_pay.Base.{ℕ, ◌≡◌, refl, none, some, List, [], ◌∷◌, Text, codes, replicate, ok}
use atara_pay.Base.Int.{pos}
use atara_pay.Limits.Amount.{parse_int}
use atara_pay.Keystore.{
  Gcm, AesKeystore, key_of, without_version, put_key, all_long, new_aes_keystore, encrypt, decrypt,
  cut_equals, read_variable, read_variables, get_env, highest, pick_current, from_env,
}
use atara_pay.Keystore.Rotation.{IsGcm, decrypt-encrypt}

-- A cipher that adds the first byte of its key, and a decoding that repeats a letter.
abbrev first_byte : List ℕ → ℕ
first_byte [] = 0
first_byte (b ∷ k) = b

abbrev repeated : Text → List ℕ
repeated s = replicate 32 (first_byte s)

abbrev shifts : Gcm
shifts = record {
  nonce_size = 12;
  seal = λ key nonce p. first_byte key ∷ p;
  open_sealed = λ key nonce c. elim c [ [] ↦ none | b ∷ p ↦ some p ];
  decode_base64 = λ s. some (repeated s);
}

shifts-IsGcm : IsGcm shifts
shifts-IsGcm = record { opens = λ key nonce p long sized. refl }

abbrev first_of_april : List Text
first_of_april = codes "ATARA_PAY_MASTER_KEY_V1=a" ∷ codes "PATH=b" ∷ []

abbrev first_keys : AesKeystore
first_keys = record { keys = (pos 1, repeated (codes "a")) ∷ []; current = pos 1 }

abbrev second_keys : AesKeystore
second_keys = record {
  keys = (pos 2, repeated (codes "c")) ∷ (pos 1, repeated (codes "a")) ∷ [];
  current = pos 2;
}

rotated :
    from_env shifts (codes "ATARA_PAY_MASTER_KEY_V1=a" ∷ codes "ATARA_PAY_MASTER_KEY_V2=c" ∷ [])
    ≡ ok second_keys
unfolding from_env read_variables read_variable cut_equals put_key without_version pick_current
    get_env highest new_aes_keystore all_long key_of parse_int
rotated = refl

decrypt-encrypt_example :
    (blob : List ℕ) × (encrypt shifts first_keys (some (replicate 12 7)) (codes "secret")
      ≡ ok (blob, pos 1))
    × (decrypt shifts second_keys blob (pos 1) ≡ ok (codes "secret"))
unfolding from_env read_variables read_variable cut_equals put_key without_version pick_current
    get_env highest new_aes_keystore all_long key_of parse_int
decrypt-encrypt_example =
    decrypt-encrypt shifts shifts-IsGcm first_of_april first_keys second_keys (replicate 12 7)
      (codes "secret") refl refl refl
