-- ===== src/Auth/Password/RoundTrip.antt =====
-- A stored password hash accepts its password (internal/auth/password.go).
use atara_pay.Base.{
  ℕ, ◌==◌, ◌≡◌, ◌↔◌, refl, sym, ap, ◌∙◌, ok-injective, Option, none, true, false, some, List, [],
  ◌∷◌, ◌++◌, Text, codes, text_eq, text_eq_refl, text_eq→eq, is_nil, length, any, ok, err,
  Bool-cases, inl, inr, if◌then◌else◌,
}
use atara_pay.Base.Int.{pos}
use atara_pay.Auth.Password.{
  Argon, split, dollar, hash_password, parse_argon2, parse_parts, verify_password,
}

-- What is documented of the calls: the base64 alphabet has no "$" and decoding undoes encoding,
-- `Sscanf` reads the numbers that `Sprintf` printed, and a key has the length that is asked for.
pub record IsArgon (lib : Argon) : Type 0 where
  pub no_dollar : (bytes : List ℕ) → any (λ c. c == dollar) (lib.encode bytes) ≡ false
  pub decodes : (bytes : List ℕ) → lib.decode (lib.encode bytes) ≡ some bytes
  pub version : lib.scan_version (codes "v=19") ≡ some (pos 19)
  pub params : lib.scan_params (codes "m=65536,t=3,p=2") ≡ some (65_536, 3, 2)
  pub key_length :
      (plaintext : Text) (salt : List ℕ) (iterations memory threads n : ℕ)
      → length (lib.id_key plaintext salt iterations memory threads n) ≡ n

split-clean : (s : Text) → any (λ c. c == dollar) s ≡ false → split dollar s ≡ s ∷ []
unfolding split
split-clean [] h = refl
split-clean (c ∷ s) h = elim (Bool-cases (c == dollar)) [
  | inl e ↦ absurd (let no : true ≡ false = rw e at h in cc)
  | inr e ↦ simp (e, split-clean s (rw e at h)) refl
]

split-append :
    (s t : Text)
    → any (λ c. c == dollar) s ≡ false
    → split dollar (s ++ dollar ∷ t) ≡ s ∷ split dollar t
unfolding split
split-append [] t h = refl
split-append (c ∷ s) t h = elim (Bool-cases (c == dollar)) [
  | inl e ↦ absurd (let no : true ≡ false = rw e at h in cc)
  | inr e ↦ simp (e, split-append s t (rw e at h)) refl
]

module _ (lib : Argon) (good : IsArgon lib) (plaintext : Text) (salt : List ℕ) where
  -- The digest of a password under the salt.
  abbrev pub digest : Text → List ℕ
  digest text = lib.id_key text salt 3 65_536 2 32

  abbrev pub stored : Text
  stored =
      codes "$argon2id$v=19$m=65536,t=3,p=2$"
      ++ (lib.encode salt ++ dollar ∷ lib.encode (digest plaintext))

  parts :
      split dollar stored
      ≡ []
        ∷ codes "argon2id"
        ∷ codes "v=19"
        ∷ codes "m=65536,t=3,p=2"
        ∷ lib.encode salt
        ∷ lib.encode (digest plaintext)
        ∷ []
  parts =
      split-append [] _ refl
      ∙ ap (λ ps. [] ∷ ps)
          (split-append (codes "argon2id") _ refl
            ∙ ap (λ ps. codes "argon2id" ∷ ps)
                (split-append (codes "v=19") _ refl
                  ∙ ap (λ ps. codes "v=19" ∷ ps)
                      (split-append (codes "m=65536,t=3,p=2") _ refl
                        ∙ ap (λ ps. codes "m=65536,t=3,p=2" ∷ ps)
                            (split-append (lib.encode salt) (lib.encode (digest plaintext))
                                (good.no_dollar salt)
                              ∙ ap (λ ps. lib.encode salt ∷ ps)
                                  (split-clean _ (good.no_dollar _))))))

  parsed_back :
      parse_argon2 lib stored
      ≡ ok (record {
        salt = salt;
        hash = digest plaintext;
        memory = 65_536;
        iterations = 3;
        parallelism = 2;
      })
  unfolding parse_argon2 parse_parts
  parsed_back =
      rw (parts, parse_argon2)
        (simp (good.version, good.params, good.decodes salt, good.decodes (digest plaintext)) refl)

  compared :
      (text : Text)
      → verify_password lib stored text ≡ (
          if text_eq (digest plaintext) (digest text)
          then ok tt
          else err (codes "auth: password mismatch"))
  unfolding verify_password
  compared text = rw parsed_back (rw (good.key_length plaintext salt 3 65_536 2 32) refl)

  accepts :
      (text : Text) → (verify_password lib stored text ≡ ok tt) ↔ (digest plaintext ≡ digest text)
  accepts text = elim (Bool-cases (text_eq (digest plaintext) (digest text))) [
    | inl same ↦
        (λ h. text_eq→eq (digest plaintext) (digest text) same, λ e. compared text ∙ rw same refl)
    | inr other ↦ (
      λ h.
          let no : err (codes "auth: password mismatch") ≡ ok (tt {0}) =
            sym (compared text ∙ rw other refl) ∙ h in
          absurd (cc),
      λ e. absurd (let same = text_eq_refl (digest plaintext) in cc),
    )
  ]

  -- Every password that is not empty is hashed under any salt, and its stored hash then accepts
  -- exactly the texts that have the same digest under that salt, the password among them.
  pub hash_password-verifies :
      is_nil plaintext ≡ false
      → (encoded : Text) × (hash_password lib plaintext (some salt) ≡ ok encoded)
        × (verify_password lib encoded plaintext ≡ ok tt)
        × ((text : Text)
            → (verify_password lib encoded text ≡ ok tt) ↔ (digest plaintext ≡ digest text))
  unfolding hash_password
  hash_password-verifies filled = (
    stored,
    rw filled refl,
    rw (compared plaintext, text_eq_refl (digest plaintext)) refl,
    λ text. accepts text,
  )

-- What was hashed is accepted.
pub hashed-verifies :
    (lib : Argon)
    → IsArgon lib
    → (plaintext : Text) (salt : Option (List ℕ)) (encoded : Text)
    → hash_password lib plaintext salt ≡ ok encoded
    → verify_password lib encoded plaintext ≡ ok tt
unfolding hash_password
hashed-verifies lib good plaintext none encoded h = absurd (cc)
hashed-verifies lib good plaintext (some salt) encoded h = elim (Bool-cases (is_nil plaintext)) [
  | inl e ↦ absurd (let no : err (codes "auth: password is empty") ≡ ok encoded = rw e at h in cc)
  | inr e ↦
      let (encoded', hashed, accepted, exactly) =
        hash_password-verifies lib good plaintext salt e in
      ap (λ t. verify_password lib t plaintext) (ok-injective encoded encoded' (sym h ∙ hashed))
      ∙ accepted
]
