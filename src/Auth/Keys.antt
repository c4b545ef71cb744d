-- ===== src/Auth/Keys.antt =====
-- A key that is minted authenticates its tenant (internal/auth/apikey.go,
-- internal/server/middleware/auth.go).
use mathlib.Core.Path.{subst}
use mathlib.Core.List.{reverse, reverse_aux, reverse-reverse}
use atara_pay.Base.{
  ◌≤◌, ℕ, ◌≤◌, ◌≡◌, refl, sym, ap, ◌∙◌, Bool, true, false, ◌&&◌, not, some, List, [], ◌∷◌, ◌++◌,
  Text, codes, text_eq, text_eq_refl, is_nil, length, is_space, drop_while, trim_space, byte_length,
  ltb, take, All, ok, if◌then◌else◌, inl, inr, arith, ◌⊎◌,
}
use atara_pay.Auth.{
  ApiKey, Crypto, Locals, MintedKey, parse_api_key, bearer_from_header, required_key_env,
  get_api_key_by_hash, mint_api_key, api_key_auth, either_auth,
}

-- What is documented of base64.RawURLEncoding: no blank, and 32 characters for 24 bytes.
pub record IsEncoding (crypto : Crypto) : Type 0 where
  pub no_space : (bytes : List ℕ) → All (λ c. is_space c ≡ false) (crypto.raw_url_encoding bytes)
  pub size : (bytes : List ℕ) → length bytes ≡ 24 → byte_length (crypto.raw_url_encoding bytes) ≡ 32

drop_while_none : (s : Text) → All (λ c. is_space c ≡ false) s → drop_while is_space s ≡ s
drop_while_none [] h = refl
drop_while_none (c ∷ s) h = simp h.0 refl

reverse_aux-All :
    (s r : Text)
    → All (λ c. is_space c ≡ false) s
    → All (λ c. is_space c ≡ false) r
    → All (λ c. is_space c ≡ false) (reverse_aux s r)
reverse_aux-All [] r h k = k
reverse_aux-All (c ∷ s) r h k = reverse_aux-All s (c ∷ r) h.1 (h.0, k)

trim_space_none : (s : Text) → All (λ c. is_space c ≡ false) s → trim_space s ≡ s
unfolding trim_space
trim_space_none s h =
    ap (λ t. reverse (drop_while is_space (reverse t))) (drop_while_none s h)
    ∙ ap reverse (drop_while_none (reverse s) (reverse_aux-All s [] h tt))
    ∙ reverse-reverse s

pub bearer_from_header_bearer :
    (raw : Text)
    → All (λ c. is_space c ≡ false) raw
    → is_nil raw ≡ false
    → bearer_from_header (codes "Bearer " ++ raw) ≡ some raw
unfolding bearer_from_header
bearer_from_header_bearer raw h some_text = rw (trim_space_none raw h) (simp some_text refl)

long_enough : (n : ℕ) → 20 ≤ n → ltb n 20 ≡ false
long_enough n h = ground arith

if_false : {A : Type 0} (b : Bool) (x y : A) → b ≡ false → (if b then x else y) ≡ y
if_false b x y h = rw h refl

and_false : (b : Bool) → (b && false) ≡ false
and_false b = ground arith

-- The two environments of keys.
abbrev pub IsKeyEnv : Text → Type 0
IsKeyEnv env = (env ≡ codes "test") ⊎ (env ≡ codes "live")

-- The locals of a request that came with the key of a row.
abbrev pub locals_of : ApiKey → Locals
locals_of row = record {
  caller = record { tenant_id = row.tenant_id; user_id = []; role = []; api_key_id = row.id };
  environment = row.environment;
}

module _ (crypto : Crypto) (good : IsEncoding crypto) (bytes : List ℕ)
    (random : length bytes ≡ 24) where
  abbrev pub key_text : Text → Text
  key_text env = codes "sk_" ++ env ++ codes "_" ++ crypto.raw_url_encoding bytes

  parse-test : parse_api_key (key_text (codes "test")) ≡ ok (codes "test")
  unfolding parse_api_key
  parse-test = let big = good.size bytes random in ground arith

  parse-live : parse_api_key (key_text (codes "live")) ≡ ok (codes "live")
  unfolding parse_api_key
  parse-live = let big = good.size bytes random in ground arith

  -- The two tests on a minted key, whichever its environment.
  parse_minted : (env : Text) → IsKeyEnv env → parse_api_key (key_text env) ≡ ok env
  parse_minted env (inl e) = subst (λ t. parse_api_key (key_text t) ≡ ok t) (sym e) parse-test
  parse_minted env (inr e) = subst (λ t. parse_api_key (key_text t) ≡ ok t) (sym e) parse-live

  blanks : (env : Text) → IsKeyEnv env → All (λ c. is_space c ≡ false) (key_text env)
  blanks env (inl e) =
      subst (λ t. All (λ c. is_space c ≡ false) (key_text t)) (sym e)
        (refl, (refl, (refl, (refl, (refl, (refl, (refl, (refl, good.no_space bytes))))))))
  blanks env (inr e) =
      subst (λ t. All (λ c. is_space c ≡ false) (key_text t)) (sym e)
        (refl, (refl, (refl, (refl, (refl, (refl, (refl, (refl, good.no_space bytes))))))))

  -- `MintAPIKey` succeeds on both environments, with the key of 24 random bytes.
  abbrev pub key_of : Text → MintedKey
  key_of env = record {
    raw = key_text env;
    prefix = take 20 (key_text env);
    hash = crypto.sha256 (key_text env);
  }

  mint-test : mint_api_key crypto (codes "test") (some bytes) ≡ ok (key_of (codes "test"))
  unfolding mint_api_key
  mint-test = if_false _ _ _ (
      long_enough (byte_length (key_text (codes "test")))
        (let big = good.size bytes random in omega arith))

  mint-live : mint_api_key crypto (codes "live") (some bytes) ≡ ok (key_of (codes "live"))
  unfolding mint_api_key
  mint-live = if_false _ _ _ (
      long_enough (byte_length (key_text (codes "live")))
        (let big = good.size bytes random in omega arith))

  pub minted : (env : Text) → IsKeyEnv env → mint_api_key crypto env (some bytes) ≡ ok (key_of env)
  minted env (inl e) =
      subst (λ t. mint_api_key crypto t (some bytes) ≡ ok (key_of t)) (sym e) mint-test
  minted env (inr e) =
      subst (λ t. mint_api_key crypto t (some bytes) ≡ ok (key_of t)) (sym e) mint-live

  gate_open :
      (gateway env : Text)
      → (required_key_env gateway ≡ []) ⊎ (required_key_env gateway ≡ env)
      → (not (is_nil (required_key_env gateway)) && not (text_eq env (required_key_env gateway)))
        ≡ false
  gate_open gateway env (inl e) = rw e refl
  gate_open gateway env (inr e) = rw (e, text_eq_refl env) (and_false (not (is_nil env)))

  -- Of 24 random bytes a key can be minted for either environment, and it has the hash of its
  -- text; a request that bears it is let through as the tenant of the row that is stored for that
  -- hash, where the row is of the same environment and the gateway takes keys of it.
  pub mint_authenticates :
      (env gateway : Text) (row : ApiKey) (rows : List ApiKey)
      → IsKeyEnv env
      → get_api_key_by_hash (key_of env).hash rows ≡ some row
      → row.environment ≡ env
      → (required_key_env gateway ≡ []) ⊎ (required_key_env gateway ≡ env)
      → (key : MintedKey) × (mint_api_key crypto env (some bytes) ≡ ok key)
        × (key.hash ≡ crypto.sha256 key.raw)
        × (either_auth crypto gateway rows (codes "Bearer " ++ key.raw) ≡ ok (locals_of row))
  unfolding either_auth api_key_auth
  mint_authenticates env gateway row rows known stored same open_gate =
      let bearer = bearer_from_header_bearer (key_text env) (blanks env known) refl in
      let own : text_eq row.environment env ≡ true =
        ap (λ t. text_eq t env) same ∙ text_eq_refl env in
      (
        key_of env,
        minted env known,
        refl,
        rw (bearer, either_auth)
            (rw (bearer, api_key_auth)
              (rw (parse_minted env known, gate_open gateway env open_gate, stored)
                (simp own refl))),
      )
