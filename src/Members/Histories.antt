-- ===== src/Members/Histories.antt =====
-- Sequences of the operations on accounts, and what always holds of the tables.
use atara_pay.Base.{
  ◌≡◌, refl, Bool, true, false, ◌&&◌, not, Option, none, some, List, [], ◌∷◌, ◌++◌, Text, text_eq,
  text_eq_refl, first, All, Bool-cases, inl, inr, arith,
}
use atara_pay.Http.{Caller}
use atara_pay.Http.Post.{Post, ok-Post, guard-Post, need-Post, attempt-Post, state-Post, Post-state}
use atara_pay.Limits.Calendar.{Time}
use atara_pay.Transfers.Rows.{is_none}
use atara_pay.Auth.{ApiKey, Crypto, MintedKey}
use atara_pay.Auth.Password.{Argon}
use atara_pay.Auth.Session.{Jwt}
use atara_pay.Members.{
  Tenant, User, Registry, no_rows, tenant_insertable, key_insertable, revoke_rows,
  CreateApiKeyRequest, SignupRequest, LoginRequest,
}
use atara_pay.Members.Keys.{
  KeyDraw, store_key, create_api_key, list_api_keys, revoke_live, revoke_api_key,
}
use atara_pay.Members.Signup.{
  Addressing, SignupDraw, open_account, signup, tenant_row, owner_row, test_row, live_row,
  with_account, LoginSetting, login, normalised,
}

-- A row has the hash, whether revoked or not.
abbrev pub has_hash : Text → List ApiKey → Option ApiKey
has_hash hash = first (λ k. text_eq k.key_hash hash)

-- No two keys have one hash.
abbrev pub HasUniqueHashes : List ApiKey → Type 0
HasUniqueHashes [] = Unit {0}
HasUniqueHashes (k ∷ rows) = (has_hash k.key_hash rows ≡ none) × HasUniqueHashes rows

abbrev pub tenant_of_email : Text → List Tenant → Option Tenant
tenant_of_email email = first (λ t. text_eq t.primary_email email)

-- The keys have different hashes, and every user's address is the one of a tenant.
pub record IsConsistent (s : Registry) : Type 0 where
  pub hashes : HasUniqueHashes s.api_keys
  pub addresses : All (λ u. is_none (tenant_of_email u.email s.tenants) ≡ false) s.users

pub is_none→eq {ℓ} : {A : Type ℓ} (o : Option A) → is_none o ≡ true → o ≡ none
is_none→eq none h = refl
is_none→eq (some a) h = cc

pub and_left : (a b : Bool) → (a && b) ≡ true → a ≡ true
and_left a b h = ground arith

pub and_right : (a b : Bool) → (a && b) ≡ true → b ≡ true
and_right a b h = ground arith

-- A revocation changes no hash.
pub has_hash-revoke_rows :
    (hash id reason : Text) (now : Time) (rows : List ApiKey)
    → has_hash hash rows ≡ none
    → has_hash hash (revoke_rows id reason now rows) ≡ none
unfolding revoke_rows
has_hash-revoke_rows hash id reason now [] h = refl
has_hash-revoke_rows hash id reason now (k ∷ rows) h =
    ground (arith, has_hash-revoke_rows hash id reason now rows)

pub revoke_rows-HasUniqueHashes :
    (id reason : Text) (now : Time) (rows : List ApiKey)
    → HasUniqueHashes rows
    → HasUniqueHashes (revoke_rows id reason now rows)
unfolding revoke_rows
revoke_rows-HasUniqueHashes id reason now [] h = tt
revoke_rows-HasUniqueHashes id reason now (k ∷ rows) h =
    elim (Bool-cases (text_eq k.id id && is_none k.revoked_at)) [
      | inl e ↦ rw e (
        has_hash-revoke_rows k.key_hash id reason now rows h.0,
        revoke_rows-HasUniqueHashes id reason now rows h.1,
      )
      | inr e ↦ rw e (
        has_hash-revoke_rows k.key_hash id reason now rows h.0,
        revoke_rows-HasUniqueHashes id reason now rows h.1,
      )
    ]

insert-HasUniqueHashes :
    (k : ApiKey) (rows : List ApiKey)
    → key_insertable k rows ≡ true
    → HasUniqueHashes rows
    → HasUniqueHashes (k ∷ rows)
unfolding key_insertable
insert-HasUniqueHashes k rows free h =
    (is_none→eq (has_hash k.key_hash rows) (and_left _ _ free), h)

-- What a later row does not take away.
addresses-cons :
    (t : Tenant) (tenants : List Tenant) (users : List User)
    → All (λ u. is_none (tenant_of_email u.email tenants) ≡ false) users
    → All (λ u. is_none (tenant_of_email u.email (t ∷ tenants)) ≡ false) users
addresses-cons t tenants [] h = tt
addresses-cons t tenants (u ∷ users) h = (ground arith, addresses-cons t tenants users h.1)

All-snoc {ℓ κ} :
    {A : Type ℓ} (P : A → Type κ) (xs : List A) (x : A) → All P xs → P x → All P (xs ++ x ∷ [])
All-snoc P [] x h p = (p, tt)
All-snoc P (y ∷ xs) x h p = (h.0, All-snoc P xs x h.1 p)

-- What an operation can do to the tables.
pub data Change (s : Registry) : Registry → Type 0 where
  same : Change s s
  added :
      (k : ApiKey)
      → key_insertable k s.api_keys ≡ true
      → Change s (record s { api_keys = k ∷ s.api_keys })
  withdrawn :
      (id reason : Text) (now : Time)
      → Change s (record s { api_keys = revoke_rows id reason now s.api_keys })
  opened :
      (draw : SignupDraw) (req : SignupRequest) (hash : Text) (test live : MintedKey)
      → tenant_insertable (tenant_row draw req) s.tenants ≡ true
      → key_insertable (test_row draw test) s.api_keys ≡ true
      → key_insertable (live_row draw live) (test_row draw test ∷ s.api_keys) ≡ true
      → Change s (with_account draw req hash test live s)

pub Change-IsConsistent : {s s' : Registry} → Change s s' → IsConsistent s → IsConsistent s'
unfolding tenant_insertable
Change-IsConsistent same c = c
Change-IsConsistent {s} (added k free) c = record {
  hashes = insert-HasUniqueHashes k s.api_keys free c.hashes;
  addresses = c.addresses;
}
Change-IsConsistent {s} (withdrawn id reason now) c = record {
  hashes = revoke_rows-HasUniqueHashes id reason now s.api_keys c.hashes;
  addresses = c.addresses;
}
Change-IsConsistent {s} (opened draw req hash test live new free_test free_live) c = record {
  hashes =
      insert-HasUniqueHashes (live_row draw live) (test_row draw test ∷ s.api_keys) free_live
        (insert-HasUniqueHashes (test_row draw test) s.api_keys free_test c.hashes);
  addresses =
      All-snoc _ s.users (owner_row draw req hash)
        (addresses-cons (tenant_row draw req) s.tenants s.users c.addresses)
        (rw (text_eq_refl req.email) refl);
}

-- The operations, each with what it meets.
pub data MemberOp : Type 0 where
  sign_up : SignupDraw → SignupRequest → MemberOp
  log_in : LoginSetting → LoginRequest → MemberOp
  create_key : Caller → KeyDraw → CreateApiKeyRequest → MemberOp
  list_keys : Caller → KeyDraw → MemberOp
  revoke_key : Caller → KeyDraw → Text → Text → MemberOp

module _ (crypto : Crypto) (argon : Argon) (jwt : Jwt) (lib : Addressing) where
  -- The tables after one operation, and after a sequence.
  unfoldable pub serve : MemberOp → Registry → Registry
  serve (sign_up draw req) s = (signup crypto argon lib draw req s).1
  serve (log_in env req) s = (login argon jwt lib env req s).1
  serve (create_key caller draw req) s = (create_api_key crypto caller draw req s).1
  serve (list_keys caller draw) s = (list_api_keys caller draw s).1
  serve (revoke_key caller draw id reason) s = (revoke_api_key caller draw id reason s).1

  unfoldable pub serve_all : List MemberOp → Registry → Registry
  serve_all [] s = s
  serve_all (op ∷ ops) s = serve_all ops (serve op s)

  signup-Change :
      (draw : SignupDraw) (req : SignupRequest) (s : Registry)
      → Post (λ r s'. Change s s') (λ s'. Change s s') (signup crypto argon lib draw req s)
  unfolding signup open_account
  signup-Change draw req s = attempt-Post _ _ same λ unit fine. attempt-Post _ _ same λ hash e1.
      attempt-Post _ _ same λ test e2. attempt-Post _ _ same λ live e3. guard-Post _ _ same λ begun.
        guard-Post _ _ same λ up. state-Post _ (
          guard-Post _ _ same λ new. guard-Post _ _ same λ user. guard-Post _ _ same λ free_test.
            guard-Post _ _ same λ free_live. guard-Post _ _ same λ policy.
              guard-Post _ _ same λ committed. ok-Post (
                opened draw (normalised lib req) hash test live new (and_right _ _ free_test)
                  free_live))

  login-Change :
      (env : LoginSetting) (req : LoginRequest) (s : Registry)
      → Post (λ r s'. Change s s') (λ s'. Change s s') (login argon jwt lib env req s)
  unfolding login
  login-Change env req s = guard-Post _ _ same λ filled. state-Post _ (
      need-Post _ _ same λ user found.
        attempt-Post _ _ same λ unit fine. attempt-Post _ _ same λ token signed. ok-Post same)

  create_api_key-Change :
      (caller : Caller) (draw : KeyDraw) (req : CreateApiKeyRequest) (s : Registry)
      → Post (λ r s'. Change s s') (λ s'. Change s s') (create_api_key crypto caller draw req s)
  unfolding create_api_key store_key
  create_api_key-Change caller draw req s = guard-Post _ _ same λ known. guard-Post _ _ same λ role.
      guard-Post _ _ same λ named. guard-Post _ _ same λ env.
        attempt-Post _ _ same
          λ key minted. guard-Post _ _ same λ free. ok-Post (added _ (and_right _ _ free))

  list_api_keys-Change :
      (caller : Caller) (draw : KeyDraw) (s : Registry)
      → Post (λ r s'. Change s s') (λ s'. Change s s') (list_api_keys caller draw s)
  unfolding list_api_keys
  list_api_keys-Change caller draw s =
      guard-Post _ _ same λ known. guard-Post _ _ same λ up. state-Post _ (ok-Post same)

  revoke_live-Change :
      (draw : KeyDraw) (id reason : Text) (row : ApiKey) (s : Registry)
      → Post (λ r s'. Change s s') (λ s'. Change s s') (revoke_live draw id reason row s)
  unfolding revoke_live
  revoke_live-Change draw id reason row s = guard-Post _ _ same λ up.
      need-Post _ _ (withdrawn id reason draw.now)
        λ updated found. ok-Post (withdrawn id reason draw.now)

  revoke_api_key-Change :
      (caller : Caller) (draw : KeyDraw) (id reason : Text) (s : Registry)
      → Post (λ r s'. Change s s') (λ s'. Change s s') (revoke_api_key caller draw id reason s)
  unfolding revoke_api_key
  revoke_api_key-Change caller draw id reason s = guard-Post _ _ same λ known.
      guard-Post _ _ same λ role. guard-Post _ _ same λ named. state-Post _ (
        need-Post _ _ same λ row found. guard-Post _ _ same λ own.
          elim (Bool-cases (not (is_none row.revoked_at))) [
            | inl e ↦ rw e (ok-Post same)
            | inr e ↦ rw e (revoke_live-Change draw id _ row s)
          ])

  pub serve-Change : (op : MemberOp) (s : Registry) → Change s (serve op s)
  unfolding serve
  serve-Change (sign_up draw req) s = Post-state (signup-Change draw req s)
  serve-Change (log_in env req) s = Post-state (login-Change env req s)
  serve-Change (create_key caller draw req) s = Post-state (create_api_key-Change caller draw req s)
  serve-Change (list_keys caller draw) s = Post-state (list_api_keys-Change caller draw s)
  serve-Change (revoke_key caller draw id reason) s =
      Post-state (revoke_api_key-Change caller draw id reason s)

  -- What every change keeps holds after every sequence.
  pub serve_all-induction :
      (P : Registry → Type 0)
      → ((s s' : Registry) → Change s s' → P s → P s')
      → (ops : List MemberOp) (s : Registry) → P s
      → P (serve_all ops s)
  unfolding serve_all
  serve_all-induction P keep [] s h = h
  serve_all-induction P keep (op ∷ ops) s h =
      serve_all-induction P keep ops (serve op s) (keep s (serve op s) (serve-Change op s) h)

  pub serve_all-IsConsistent : (ops : List MemberOp) → IsConsistent (serve_all ops no_rows)
  serve_all-IsConsistent ops =
      serve_all-induction IsConsistent (λ s s' c. Change-IsConsistent c) ops no_rows
        (record { hashes = tt; addresses = tt })
