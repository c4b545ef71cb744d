-- ===== src/Members/Revocation.antt =====
-- A revoked API key opens the gate no more (internal/server/handlers/api_keys.go,
-- internal/server/middleware/auth.go).
use mathlib.Core.Option.{some-injective}
use atara_pay.Base.{
  ◌≡◌, refl, sym, ap, ◌∙◌, Bool, true, false, ◌&&◌, not, Option, none, some, List, Text, codes,
  text_eq, is_nil, text_eq→eq, has_prefix, Result, ok, err, Bool-cases, inl, inr, arith,
}
use atara_pay.Http.{Caller, Reply}
use atara_pay.Http.Post.{Post, ok-Post, guard-Post, need-Post, state-Post, Post-ok}
use atara_pay.Transfers.Rows.{is_none}
use atara_pay.Transfers.Plane.{unless_fails}
use atara_pay.Auth.{
  ApiKey, AuthStop, denied, panicked, Crypto, bearer_from_header, parse_api_key, required_key_env,
  get_api_key_by_hash, check_key, api_key_auth, either_auth,
}
use atara_pay.Auth.Password.{Argon}
use atara_pay.Auth.Session.{Jwt}
use atara_pay.Members.{Registry, no_rows, get_api_key, revoke_rows, revoked_row, ApiKeyView}
use atara_pay.Members.Keys.{KeyDraw, revoke_live, revoke_api_key}
use atara_pay.Members.Signup.{Addressing}
use atara_pay.Members.Withdrawn.{
  IsWithdrawn, Change-IsWithdrawn, revoked-IsWithdrawn, get_api_key-revoke_rows,
}
use atara_pay.Members.Histories.{
  HasUniqueHashes, revoke_rows-HasUniqueHashes, MemberOp, serve_all, serve_all-induction,
  serve_all-IsConsistent,
}

-- What a revocation that succeeds has done.
abbrev IsRevocation : Caller → Text → Registry → Registry → Type 0
IsRevocation caller id s s' =
    (k : ApiKey) × (get_api_key id s.api_keys ≡ some k)
    × (k.tenant_id ≡ caller.tenant_id)
    × IsWithdrawn k.key_hash s'.api_keys

revoke_live-Post :
    (caller : Caller) (draw : KeyDraw) (id reason : Text) (k : ApiKey) (s : Registry)
    → HasUniqueHashes s.api_keys
    → get_api_key id s.api_keys ≡ some k
    → k.tenant_id ≡ caller.tenant_id
    → is_none k.revoked_at ≡ true
    → Post (λ r s'. IsRevocation caller id s s') (λ s'. Unit {0}) (revoke_live draw id reason k s)
unfolding revoke_live
revoke_live-Post caller draw id reason k s unique found own live = guard-Post _ _ tt λ up.
    need-Post _ _ tt λ updated read. ok-Post (
      k,
      found,
      own,
      revoked-IsWithdrawn id (revoked_row reason draw.now k)
          (revoke_rows id reason draw.now s.api_keys)
          (revoke_rows-HasUniqueHashes id reason draw.now s.api_keys unique)
          (get_api_key-revoke_rows id reason draw.now k s.api_keys found live) refl,
    )

fails_or : (b : Bool) (o : Option ApiKey) (k : ApiKey) → unless_fails b o ≡ some k → o ≡ some k
fails_or true o k h = cc
fails_or false o k h = h

is_on : (b : Bool) → not b ≡ false → b ≡ true
is_on b h = ground arith

is_off : (b : Bool) → not b ≡ true → b ≡ false
is_off b h = ground arith

revoke_api_key-Post :
    (caller : Caller) (draw : KeyDraw) (id reason : Text) (s : Registry)
    → HasUniqueHashes s.api_keys
    → Post
        (λ r s'. IsRevocation caller id s s')
        (λ s'. Unit {0})
        (revoke_api_key caller draw id reason s)
unfolding revoke_api_key
revoke_api_key-Post caller draw id reason s unique = guard-Post _ _ tt λ known.
    guard-Post _ _ tt λ role. guard-Post _ _ tt λ named. state-Post _ (
      need-Post _ _ tt λ row e. guard-Post _ _ tt λ same_tenant.
        let found = fails_or _ _ _ e in
        let own = text_eq→eq row.tenant_id caller.tenant_id same_tenant in
        elim (Bool-cases (not (is_none row.revoked_at))) [
          | inl gone ↦ rw gone (
              ok-Post (
                row,
                found,
                own,
                revoked-IsWithdrawn id row s.api_keys unique found (is_off _ gone),
              ))
          | inr live ↦
              rw live (revoke_live-Post caller draw id _ row s unique found own (is_on _ live))
        ])

module _ (crypto : Crypto) where
  dead_key_denied :
      (gateway raw : Text) (rows : List ApiKey) (env : Result AuthStop Text)
      → get_api_key_by_hash (crypto.sha256 raw) rows ≡ none
      → (e : AuthStop) × (check_key crypto gateway raw rows env ≡ err e)
  dead_key_denied gateway raw rows (err (denied e)) dead = (_, refl)
  dead_key_denied gateway raw rows (err panicked) dead = (_, refl)
  dead_key_denied gateway raw rows (ok env) dead =
      rw dead
        (elim (Bool-cases (
          not (is_nil (required_key_env gateway))
          && not (text_eq env (required_key_env gateway)))) [
            | inl shut ↦ (
              denied (codes "api key environment does not match gateway environment"),
              rw shut refl,
            )
            | inr open_gate ↦ (denied (codes "invalid api key"), rw open_gate refl)
          ])

  -- A request that bears a key of which no row is live is stopped.
  dead_request_denied :
      (gateway header raw : Text) (rows : List ApiKey)
      → bearer_from_header header ≡ some raw
      → has_prefix raw (codes "sk_") ≡ true
      → get_api_key_by_hash (crypto.sha256 raw) rows ≡ none
      → (e : AuthStop) × (either_auth crypto gateway rows header ≡ err e)
  unfolding either_auth api_key_auth
  dead_request_denied gateway header raw rows bears key dead =
      let (e, stopped) = dead_key_denied gateway raw rows (parse_api_key raw) dead in
      (e, rw (bears, either_auth) (rw key (rw (bears, api_key_auth) stopped)))

module _ (crypto : Crypto) (argon : Argon) (jwt : Jwt) (lib : Addressing) where
  -- Once the revocation of an API key has succeeded, after any operations from empty tables, the
  -- key is one of the caller's tenant, and whatever operations follow, each request that bears a
  -- text that begins with "sk_" and has the hash of that key is stopped at the gate.
  pub revoked_key_denied :
      (before after : List MemberOp) (caller : Caller) (draw : KeyDraw) (id reason : Text)
      (answer : Reply ApiKeyView) (row : ApiKey) (gateway header raw : Text)
      → (revoke_api_key caller draw id reason (serve_all crypto argon jwt lib before no_rows)).0
        ≡ ok answer
      → get_api_key id (serve_all crypto argon jwt lib before no_rows).api_keys ≡ some row
      → bearer_from_header header ≡ some raw
      → has_prefix raw (codes "sk_") ≡ true
      → crypto.sha256 raw ≡ row.key_hash
      → (row.tenant_id ≡ caller.tenant_id)
        × ((e : AuthStop) × (either_auth crypto gateway
                (serve_all crypto argon jwt lib after
                  (revoke_api_key caller draw id reason
                    (serve_all crypto argon jwt lib before no_rows)).1).api_keys
                header
              ≡ err e))
  revoked_key_denied before after caller draw id reason answer row gateway header raw done found
        bears key hashes =
      let s : Registry = serve_all crypto argon jwt lib before no_rows in
      let unique = (serve_all-IsConsistent crypto argon jwt lib before).hashes in
      let (k, found', own, withdrawn_now) =
        Post-ok (revoke_api_key-Post caller draw id reason s unique) done in
      let is_row : k ≡ row = some-injective _ _ (sym found' ∙ found) in
      let still =
        serve_all-induction crypto argon jwt lib (λ t. IsWithdrawn k.key_hash t.api_keys)
          (Change-IsWithdrawn k.key_hash) after (revoke_api_key caller draw id reason s).1
          withdrawn_now in
      let rows : List ApiKey =
        (serve_all crypto argon jwt lib after
          (revoke_api_key caller draw id reason s).1).api_keys in
      (
        ap (λ j. j.tenant_id) (sym is_row) ∙ own,
        dead_request_denied crypto gateway header raw rows bears key (
            ap (λ h. get_api_key_by_hash h rows) (hashes ∙ ap (λ j. j.key_hash) (sym is_row))
            ∙ still.dead),
      )
