-- ===== src/Auth/Gate.antt =====
-- Who is let through (internal/server/middleware/auth.go, session.go).
use atara_pay.Base.{
  ◌≡◌, refl, sym, ap, ◌⊎◌, inl, inr, false, ◌&&◌, not, Option, none, some, List, [], ◌∷◌, Text,
  codes, text_eq, text_eq→eq, is_nil, has_prefix, Result, ok, err, ok-injective, Bool-cases,
  Option-cases, arith,
}
use atara_pay.Auth.{
  ApiKey, AuthStop, denied, panicked, Crypto, Claims, Locals, parse_api_key, bearer_from_header,
  required_key_env, get_api_key_by_hash, admit_row, check_key, api_key_auth, admit_claims,
  session_auth, either_auth,
}

module _ (crypto : Crypto) (gateway : Text) (rows : List ApiKey) where
  -- Why a request was let through: by a stored key that is not revoked, of the environment that
  -- its text names and the gateway takes, or by the claims of a session token that was accepted.
  pub data IsLetThrough (header : Text) (locals : Locals) : Type 0 where
    by_key :
        (raw env : Text) (row : ApiKey)
        → bearer_from_header header ≡ some raw
        → parse_api_key raw ≡ ok env
        → get_api_key_by_hash (crypto.sha256 raw) rows ≡ some row
        → row.environment ≡ env
        → (required_key_env gateway ≡ []) ⊎ (required_key_env gateway ≡ env)
        → locals.caller.tenant_id ≡ row.tenant_id
        → locals.caller.api_key_id ≡ row.id
        → IsLetThrough header locals
    by_session :
        (raw : Text) (claims : Claims)
        → bearer_from_header header ≡ some raw
        → crypto.parse_session_token raw ≡ some claims
        → locals.caller.tenant_id ≡ claims.tenant_id
        → locals.caller.role ≡ claims.role
        → IsLetThrough header locals

  open_gate :
      (wanted env : Text)
      → (not (is_nil wanted) && not (text_eq env wanted)) ≡ false
      → (wanted ≡ []) ⊎ (wanted ≡ env)
  open_gate [] env h = inl refl
  open_gate (c ∷ s) env h = inr (sym (text_eq→eq env (c ∷ s) (ground arith)))

  admit_row_sound :
      (env : Text) (found : Option ApiKey) (locals : Locals)
      → admit_row crypto env found ≡ ok locals
      → (row : ApiKey) × (found ≡ some row)
        × (row.environment ≡ env)
        × (locals.caller.tenant_id ≡ row.tenant_id)
        × (locals.caller.api_key_id ≡ row.id)
  admit_row_sound env none locals h = absurd (cc)
  admit_row_sound env (some row) locals h = elim (Bool-cases (text_eq row.environment env)) [
    | inl e ↦
        let same = ok-injective _ locals (simp e at h) in
        (
          row,
          refl,
          text_eq→eq _ _ e,
          ap (λ l. l.caller.tenant_id) (sym same),
          ap (λ l. l.caller.api_key_id) (sym same),
        )
    | inr e ↦
        let no : err (denied (codes "invalid api key")) ≡ ok locals = simp e at h in absurd (cc)
  ]

  check_key_sound :
      (header raw : Text) (parsed : Result AuthStop Text) (locals : Locals)
      → bearer_from_header header ≡ some raw
      → parse_api_key raw ≡ parsed
      → check_key crypto gateway raw rows parsed ≡ ok locals
      → IsLetThrough header locals
  check_key_sound header raw (err (denied e)) locals b p h = absurd (cc)
  check_key_sound header raw (err panicked) locals b p h = absurd (cc)
  check_key_sound header raw (ok env) locals b p h =
      elim (Bool-cases
        (not (is_nil (required_key_env gateway)) && not (text_eq env (required_key_env gateway)))) [
          | inl e ↦
              let no : err (denied (codes "api key environment does not match gateway environment"))
                  ≡ ok locals =
                rw e at h in
              absurd (cc)
          | inr e ↦
              let (row, found, same, tenant, key) = admit_row_sound env _ locals (rw e at h) in
              by_key raw env row b p found same (open_gate _ env e) tenant key
        ]

  api_key_auth_sound :
      (header : Text) (locals : Locals)
      → api_key_auth crypto gateway rows header ≡ ok locals
      → IsLetThrough header locals
  unfolding api_key_auth
  api_key_auth_sound header locals h = elim (Option-cases (bearer_from_header header)) [
    | inl e ↦
        let no : err (denied (codes "missing or malformed Authorization header")) ≡ ok locals =
          rw (e, api_key_auth) at h in
        absurd (cc)
    | inr (raw, e) ↦
        check_key_sound header raw (parse_api_key raw) locals e refl (rw (e, api_key_auth) at h)
  ]

  admit_claims_sound :
      (header raw : Text) (found : Option Claims) (locals : Locals)
      → bearer_from_header header ≡ some raw
      → crypto.parse_session_token raw ≡ found
      → admit_claims crypto found ≡ ok locals
      → IsLetThrough header locals
  admit_claims_sound header raw none locals b p h = absurd (cc)
  admit_claims_sound header raw (some claims) locals b p h =
      let same = ok-injective _ locals h in
      by_session raw claims b p (ap (λ l. l.caller.tenant_id) (sym same))
        (ap (λ l. l.caller.role) (sym same))

  session_auth_sound :
      (header : Text) (locals : Locals)
      → session_auth crypto header ≡ ok locals
      → IsLetThrough header locals
  unfolding session_auth
  session_auth_sound header locals h = elim (Option-cases (bearer_from_header header)) [
    | inl e ↦
        let no : err (denied (codes "missing or malformed Authorization header")) ≡ ok locals =
          rw (e, session_auth) at h in
        absurd (cc)
    | inr (raw, e) ↦ admit_claims_sound header raw _ locals e refl (rw (e, session_auth) at h)
  ]

  -- A request is let through only by a stored API key that is not revoked, whose environment is
  -- the one that its text names and one that the gateway takes, or by a session token that was
  -- accepted; and its tenant is that of the key, or of the token.
  pub either_auth_sound :
      (header : Text) (locals : Locals)
      → either_auth crypto gateway rows header ≡ ok locals
      → IsLetThrough header locals
  unfolding either_auth
  either_auth_sound header locals h = elim (Option-cases (bearer_from_header header)) [
    | inl e ↦
        let no : err (denied (codes "missing or malformed Authorization header")) ≡ ok locals =
          rw (e, either_auth) at h in
        absurd (cc)
    | inr (raw, e) ↦ elim (Bool-cases (has_prefix raw (codes "sk_"))) [
      | inl key ↦ api_key_auth_sound header locals (rw key at (rw (e, either_auth) at h))
      | inr token ↦ session_auth_sound header locals (rw token at (rw (e, either_auth) at h))
    ]
  ]
