-- ===== src/Auth/Tests.antt =====
-- Concrete runs of authentication.
use atara_pay.Base.{
  ℕ, ◌+◌, ◌≤◌, ◌≡◌, refl, inr, true, false, none, some, List, [], ◌∷◌, ◌++◌, Text, codes,
  byte_length, length, replicate, is_space, trim_space, All, ok, err, arith,
}
use atara_pay.Auth.{
  ApiKey, panicked, Crypto, MintedKey, parse_api_key, bearer_from_header, required_key_env,
  get_api_key_by_hash, mint_api_key, session_auth, either_auth,
}
use atara_pay.Auth.Keys.{IsEncoding, locals_of, mint_authenticates}
use atara_pay.Auth.Gate.{IsLetThrough, either_auth_sound}
use atara_pay.Auth.RateLimit.{
  RateLimitConfig, effective_limit, admitted, failures, admitted_le_limit,
}

abbrev pub letters : List ℕ → Text
letters [] = []
letters (b ∷ bytes) = b'A' ∷ letters bytes

letters_clean : (bytes : List ℕ) → All (λ c. is_space c ≡ false) (letters bytes)
letters_clean [] = tt
letters_clean (b ∷ bytes) = (refl, letters_clean bytes)

letters_size : (bytes : List ℕ) → byte_length (letters bytes) ≡ length bytes
letters_size [] = refl
letters_size (b ∷ bytes) = let ih = letters_size bytes in omega arith

abbrev pub plain_crypto : Crypto
plain_crypto = record {
  sha256 = λ s. s;
  raw_url_encoding = λ bytes. codes "AAAAAAAA" ++ letters bytes;
  parse_session_token =
      λ s. some (record { tenant_id = codes "t_1"; user_id = codes "u_1"; role = codes "owner" });
}

pub plain_crypto-IsEncoding : IsEncoding plain_crypto
plain_crypto-IsEncoding = record {
  no_space =
      λ bytes. (refl, (refl, (refl, (refl, (refl, (refl, (refl, (refl, letters_clean bytes))))))));
  size = λ bytes h. let ih = letters_size bytes in omega arith;
}

abbrev pub random_bytes : List ℕ
random_bytes = replicate 24 0

abbrev live_key : Text
live_key = codes "sk_live_AAAAAAAA" ++ letters random_bytes

abbrev stored_key : ApiKey
stored_key = record {
  id = codes "k_1";
  tenant_id = codes "t_1";
  created_by = none;
  name = codes "backend";
  environment = codes "live";
  key_prefix = codes "sk_live_AAAAAAAAAAAA";
  key_hash = live_key;
  revoked_at = none;
  revoked_reason = none;
}

mint_authenticates_example :
    (key : MintedKey) × (mint_api_key plain_crypto (codes "live") (some random_bytes) ≡ ok key)
    × (key.hash ≡ plain_crypto.sha256 key.raw)
    × (either_auth plain_crypto (codes "production") (stored_key ∷ []) (codes "Bearer " ++ key.raw)
        ≡ ok (locals_of stored_key))
unfolding get_api_key_by_hash required_key_env
mint_authenticates_example =
    mint_authenticates plain_crypto plain_crypto-IsEncoding random_bytes refl (codes "live")
      (codes "production") stored_key (stored_key ∷ []) (inr refl) refl refl (inr refl)

either_auth_sound_example :
    IsLetThrough plain_crypto (codes "production") [] (codes "Bearer token") (record {
      caller = record {
        tenant_id = codes "t_1";
        user_id = codes "u_1";
        role = codes "owner";
        api_key_id = [];
      };
      environment = [];
    })
unfolding either_auth session_auth bearer_from_header trim_space
either_auth_sound_example =
    either_auth_sound plain_crypto (codes "production") [] (codes "Bearer token") _ refl

abbrev two_a_minute : RateLimitConfig
two_a_minute = record { requests_per_minute = 2; key_prefix = [] }

admitted_le_limit_example :
    admitted two_a_minute (codes "t_1") (true ∷ true ∷ false ∷ true ∷ []) 0
    ≤ effective_limit two_a_minute + failures (true ∷ true ∷ false ∷ true ∷ [])
admitted_le_limit_example =
    admitted_le_limit two_a_minute (codes "t_1") (true ∷ true ∷ false ∷ true ∷ []) refl

-- A short key with the right beginning.
short_key_panics : parse_api_key (codes "sk_abc") ≡ err panicked
unfolding parse_api_key
short_key_panics = refl
