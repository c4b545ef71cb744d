-- ===== src/Auth/Password.antt =====
-- Passwords (internal/auth/password.go).
pub mod RoundTrip
use atara_pay.Base.{
  ℕ, ◌==◌, Bool, false, not, Option, none, some, List, [], ◌∷◌, ◌++◌, Text, codes, text_eq, is_nil,
  length, Result, ok, err, ◌>>=◌, if◌then◌else◌,
}
use atara_pay.Base.Int.{ℤ, pos, negsuc}

-- What the code calls: `argon2.IDKey` on iterations, memory, threads and the length of the key,
-- `base64.RawStdEncoding`, and `fmt.Sscanf` with "v=%d" and with "m=%d,t=%d,p=%d".
pub record Argon : Type 0 where
  pub id_key : Text → List ℕ → ℕ → ℕ → ℕ → ℕ → List ℕ
  pub encode : List ℕ → Text
  pub decode : Text → Option (List ℕ)
  pub scan_version : Text → Option ℤ
  pub scan_params : Text → Option (ℕ × ℕ × ℕ)

-- `argon2Params` with the salt and the hash.
pub record ParsedHash : Type 0 where
  pub salt : List ℕ
  pub hash : List ℕ
  pub memory : ℕ
  pub iterations : ℕ
  pub parallelism : ℕ

abbrev pub cons_head : ℕ → List Text → List Text
cons_head c [] = (c ∷ []) ∷ []
cons_head c (part ∷ parts) = (c ∷ part) ∷ parts

-- `strings.Split` at one character.
unfoldable pub split : ℕ → Text → List Text
split sep [] = [] ∷ []
split sep (c ∷ s) = let rest = split sep s in if c == sep then [] ∷ rest else cons_head c rest

-- The separator of the parts.
abbrev pub dollar : ℕ
dollar = b'$'

abbrev pub is_argon2_version : ℤ → Bool
is_argon2_version (pos n) = n == 19
is_argon2_version (negsuc n) = false

-- A step of `parseArgon2` that may fail.
abbrev pub parsed {ℓ} : {A : Type ℓ} → Text → Option A → Result Text A
parsed e none = err e
parsed e (some a) = ok a

module _ (lib : Argon) where
  -- `HashPassword` with the constants of the package; `none` is an error of the random source.
  unfoldable pub hash_password : Text → Option (List ℕ) → Result Text Text
  hash_password plaintext none =
      err (if is_nil plaintext then codes "auth: password is empty" else codes "auth: read salt")
  hash_password plaintext (some salt) =
      if is_nil plaintext
      then err (codes "auth: password is empty")
      else ok (
          codes "$argon2id$v=19$m=65536,t=3,p=2$"
          ++ (lib.encode salt ++ dollar ∷ lib.encode (lib.id_key plaintext salt 3 65_536 2 32)))

  -- `parseArgon2`, on the parts of the text.
  unfoldable pub parse_parts : List Text → Result Text ParsedHash
  parse_parts (start ∷ name ∷ version ∷ params ∷ salt ∷ hash ∷ []) =
      if not (text_eq name (codes "argon2id")) then err (codes "auth: not an argon2id hash") else do
        v ← parsed (codes "auth: parse version") (lib.scan_version version)
        if not (is_argon2_version v) then err (codes "auth: unsupported argon2 version") else do
          p ← parsed (codes "auth: parse params") (lib.scan_params params)
          s ← parsed (codes "auth: decode salt") (lib.decode salt)
          h ← parsed (codes "auth: decode hash") (lib.decode hash)
          ok (record { salt = s; hash = h; memory = p.0; iterations = p.1; parallelism = p.2 })
  parse_parts parts = err (codes "auth: not an argon2id hash")

  -- `parseArgon2`
  unfoldable pub parse_argon2 : Text → Result Text ParsedHash
  parse_argon2 encoded = parse_parts (split dollar encoded)

  -- The comparison of `VerifyPassword`.
  abbrev pub compare_hash : Text → ParsedHash → Result Text (Unit {0})
  compare_hash plaintext p =
      let actual =
        lib.id_key plaintext p.salt p.iterations p.memory p.parallelism (length p.hash) in
      if text_eq p.hash actual then ok tt else err (codes "auth: password mismatch")

  -- `VerifyPassword`
  unfoldable pub verify_password : Text → Text → Result Text (Unit {0})
  verify_password encoded plaintext = parse_argon2 encoded >>= compare_hash plaintext
