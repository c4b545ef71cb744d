-- ===== src/Members/Tests/Plain.antt =====
-- Stand-ins for the libraries, with what is documented of them.
use mathlib.Core.Path.{subst}
use mathlib.Core.Option.{some-injective}
use atara_pay.Base.{
  sym, text_eq_refl, suc, zero, ℕ, ◌+◌, ◌-◌, ◌≤◌, ◌<◌, ◌==◌, ◌≡◌, refl, ap, ◌∙◌, true, false, ◌&&◌,
  Option, none, some, List, [], ◌∷◌, ◌++◌, map, Text, codes, text_eq, is_space, is_nil, any, length,
  take, replicate, leb, ltb, has_prefix, All, if◌then◌else◌, arith, drop, take-length, drop-length,
}
use atara_pay.Base.Int.{pos}
use atara_pay.Limits.Calendar.{Time}
use atara_pay.Auth.Password.{Argon, dollar}
use atara_pay.Auth.Password.RoundTrip.{IsArgon}
use atara_pay.Auth.Session.{SessionClaims, Jwt}
use atara_pay.Members.Entry.{IsJwt}

-- Bytes as characters behind the blanks and the letters of the program.
abbrev shift : ℕ → List ℕ → Text
shift k = map (λ c. c + k)

abbrev unshift : ℕ → Text → List ℕ
unshift k = map (λ c. c - k)

unshift-shift : (k : ℕ) (xs : List ℕ) → unshift k (shift k xs) ≡ xs
unshift-shift k [] = refl
unshift-shift k (x ∷ xs) = simp (unshift-shift k xs) (ground arith)

shift-no_dollar : (xs : List ℕ) → any (λ c. c == dollar) (shift 100 xs) ≡ false
shift-no_dollar [] = refl
shift-no_dollar (x ∷ xs) = ground (arith, shift-no_dollar xs)

length-replicate : (n : ℕ) (x : ℕ) → length (replicate n x) ≡ n
length-replicate zero x = refl
length-replicate (suc n) x = omega (arith, length-replicate n x)

abbrev pub plain_argon : Argon
plain_argon = record {
  id_key = λ plaintext salt iterations memory threads n. replicate n (length plaintext);
  encode = shift 100;
  decode = λ s. some (unshift 100 s);
  scan_version = λ s. if text_eq s (codes "v=19") then some (pos 19) else none;
  scan_params = λ s. if text_eq s (codes "m=65536,t=3,p=2") then some (65_536, 3, 2) else none;
}

pub plain_argon-IsArgon : IsArgon plain_argon
plain_argon-IsArgon = record {
  no_dollar = shift-no_dollar;
  decodes = λ bytes. ap some (unshift-shift 100 bytes);
  version = refl;
  params = refl;
  key_length = λ plaintext salt iterations memory threads n. length-replicate n (length plaintext);
}

-- A token: the times, the lengths of the texts and the texts, shifted.
abbrev body : SessionClaims → List ℕ
body c =
    c.issued_at
    ∷ c.expires_at
    ∷ c.not_before
    ∷ length c.user_id
    ∷ length c.tenant_id
    ∷ length c.role
    ∷ (c.user_id ++ (c.tenant_id ++ (c.role ++ c.issuer)))

abbrev read_body : Time → Text → List ℕ → Option SessionClaims
read_body now issuer (i ∷ e ∷ n ∷ u ∷ t ∷ r ∷ rest) =
    let after_user = drop u rest in
    let after_tenant = drop t after_user in
    if leb n now && (ltb now e && text_eq (drop r after_tenant) issuer)
    then some (record {
      user_id = take u rest;
      tenant_id = take t after_user;
      role = take r after_tenant;
      issuer = drop r after_tenant;
      issued_at = i;
      expires_at = e;
      not_before = n;
    })
    else none
read_body now issuer rest = none

abbrev pub plain_jwt : Jwt
plain_jwt = record {
  sign = λ key c. some (shift 20_000 (body c));
  parse = λ key issuer now raw. read_body now issuer (unshift 20_000 raw);
}

le→leb : (m n : ℕ) → m ≤ n → leb m n ≡ true
le→leb m n h = ground arith

lt→ltb : (m n : ℕ) → m < n → ltb m n ≡ true
lt→ltb m n h = ground arith

read_body-body :
    (c : SessionClaims) (now : Time)
    → c.not_before ≤ now
    → now < c.expires_at
    → read_body now c.issuer (body c) ≡ some c
read_body-body c now started unexpired =
    simp
      (
        drop-length c.user_id (c.tenant_id ++ (c.role ++ c.issuer)),
        take-length c.user_id (c.tenant_id ++ (c.role ++ c.issuer)),
        drop-length c.tenant_id (c.role ++ c.issuer),
        take-length c.tenant_id (c.role ++ c.issuer),
        drop-length c.role c.issuer,
        take-length c.role c.issuer,
        le→leb _ _ started,
        lt→ltb _ _ unexpired,
        text_eq_refl c.issuer,
      )
      refl

shift-no_space : (xs : List ℕ) → All (λ c. is_space c ≡ false) (shift 20_000 xs)
shift-no_space [] = tt
shift-no_space (x ∷ xs) = (ground arith, shift-no_space xs)

not_key : (c : SessionClaims) → has_prefix (shift 20_000 (body c)) (codes "sk_") ≡ false
not_key c = ground arith

pub plain_jwt-IsJwt : IsJwt plain_jwt
plain_jwt-IsJwt = record {
  signs = λ key c. (shift 20_000 (body c), refl);
  accepts = λ key c raw now signed started unexpired.
      ap (λ r. read_body now c.issuer (unshift 20_000 r)) (sym (some-injective _ raw signed))
      ∙ ap (read_body now c.issuer) (unshift-shift 20_000 (body c))
      ∙ read_body-body c now started unexpired;
  no_space = λ key c raw signed.
      subst (All (λ ch. is_space ch ≡ false)) (some-injective _ raw signed)
        (shift-no_space (body c));
  filled = λ key c raw signed. ap is_nil (sym (some-injective _ raw signed));
  no_key = λ key c raw signed.
      ap (λ r. has_prefix r (codes "sk_")) (sym (some-injective _ raw signed)) ∙ not_key c;
}
