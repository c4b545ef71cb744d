-- ===== src/Members/Withdrawn.antt =====
-- Hashes of which no key is live stay so (internal/db/sqlcgen/api_keys.sql.go).
use mathlib.Core.Path.{subst}
use mathlib.Core.Option.{some-injective}
use atara_pay.Base.{
  ◌≡◌, refl, sym, ap, ◌∙◌, true, false, none, some, List, [], ◌∷◌, Text, text_eq, text_eq_refl,
  text_eq→eq, Bool-cases, inl, inr, arith,
}
use atara_pay.Limits.Calendar.{Time}
use atara_pay.Transfers.Rows.{is_none}
use atara_pay.Auth.{ApiKey, get_api_key_by_hash}
use atara_pay.Members.{Registry, key_insertable, get_api_key, revoke_rows, revoked_row}
use atara_pay.Members.Signup.{test_row, live_row}
use atara_pay.Members.Histories.{
  has_hash, HasUniqueHashes, is_none→eq, and_left, Change, same, added, withdrawn, opened,
}

-- A key with the hash is stored, and none that is not revoked.
pub record IsWithdrawn (hash : Text) (rows : List ApiKey) : Type 0 where
  pub known : is_none (has_hash hash rows) ≡ false
  pub dead : get_api_key_by_hash hash rows ≡ none

no_hash-dead :
    (hash : Text) (rows : List ApiKey)
    → has_hash hash rows ≡ none
    → get_api_key_by_hash hash rows ≡ none
unfolding get_api_key_by_hash
no_hash-dead hash [] h = refl
no_hash-dead hash (k ∷ rows) h = ground (arith, no_hash-dead hash rows)

-- A new key has a hash of its own.
insert-IsWithdrawn :
    (hash : Text) (k : ApiKey) (rows : List ApiKey)
    → key_insertable k rows ≡ true
    → IsWithdrawn hash rows
    → IsWithdrawn hash (k ∷ rows)
unfolding key_insertable get_api_key_by_hash
insert-IsWithdrawn hash k rows free w = elim (Bool-cases (text_eq k.key_hash hash)) [
  | inl e ↦
      let absent : has_hash hash rows ≡ none =
        ap (λ h. has_hash h rows) (sym (text_eq→eq k.key_hash hash e))
        ∙ is_none→eq (has_hash k.key_hash rows) (and_left _ _ free) in
      absurd (let no : true ≡ false = sym (ap is_none absent) ∙ w.known in cc)
  | inr e ↦ record { known = rw e w.known; dead = rw e w.dead }
]

revoke_rows-known :
    (hash id reason : Text) (now : Time) (rows : List ApiKey)
    → is_none (has_hash hash rows) ≡ false
    → is_none (has_hash hash (revoke_rows id reason now rows)) ≡ false
unfolding revoke_rows
revoke_rows-known hash id reason now [] h = cc
revoke_rows-known hash id reason now (k ∷ rows) h =
    ground (arith, revoke_rows-known hash id reason now rows)

revoke_rows-dead :
    (hash id reason : Text) (now : Time) (rows : List ApiKey)
    → get_api_key_by_hash hash rows ≡ none
    → get_api_key_by_hash hash (revoke_rows id reason now rows) ≡ none
unfolding revoke_rows get_api_key_by_hash
revoke_rows-dead hash id reason now [] h = refl
revoke_rows-dead hash id reason now (k ∷ rows) h =
    ground (arith, revoke_rows-dead hash id reason now rows)

pub Change-IsWithdrawn :
    (hash : Text) (s s' : Registry)
    → Change s s'
    → IsWithdrawn hash s.api_keys
    → IsWithdrawn hash s'.api_keys
Change-IsWithdrawn hash s s' same w = w
Change-IsWithdrawn hash s s' (added k free) w = insert-IsWithdrawn hash k s.api_keys free w
Change-IsWithdrawn hash s s' (withdrawn id reason now) w = record {
  known = revoke_rows-known hash id reason now s.api_keys w.known;
  dead = revoke_rows-dead hash id reason now s.api_keys w.dead;
}
Change-IsWithdrawn hash s s' (opened draw req pw test live new free_test free_live) w =
    insert-IsWithdrawn hash (live_row draw live) (test_row draw test ∷ s.api_keys) free_live
      (insert-IsWithdrawn hash (test_row draw test) s.api_keys free_test w)

-- A revoked row is the only one with its hash.
pub revoked-IsWithdrawn :
    (id : Text) (k : ApiKey) (rows : List ApiKey)
    → HasUniqueHashes rows
    → get_api_key id rows ≡ some k
    → is_none k.revoked_at ≡ false
    → IsWithdrawn k.key_hash rows
unfolding get_api_key get_api_key_by_hash
revoked-IsWithdrawn id k [] u found gone = cc
revoked-IsWithdrawn id k (r ∷ rows) u found gone = elim (Bool-cases (text_eq r.id id)) [
  | inl e ↦
      let own : r ≡ k = some-injective _ _ (rw e at found) in
      subst (λ j. IsWithdrawn j.key_hash (r ∷ rows)) own
        (record {
          known = rw (text_eq_refl r.key_hash) refl;
          dead =
              simp (text_eq_refl r.key_hash, ap (λ j. is_none j.revoked_at) own ∙ gone)
                (no_hash-dead r.key_hash rows u.0);
        })
  | inr e ↦
      let later = revoked-IsWithdrawn id k rows u.1 (rw e at found) gone in
      elim (Bool-cases (text_eq r.key_hash k.key_hash)) [
        | inl clash ↦
            let absent : has_hash k.key_hash rows ≡ none =
              ap (λ h. has_hash h rows) (sym (text_eq→eq r.key_hash k.key_hash clash)) ∙ u.0 in
            absurd (let no : true ≡ false = sym (ap is_none absent) ∙ later.known in cc)
        | inr other ↦ record { known = rw other later.known; dead = rw other later.dead }
      ]
]

pub get_api_key-revoke_rows :
    (id reason : Text) (now : Time) (k : ApiKey) (rows : List ApiKey)
    → get_api_key id rows ≡ some k
    → is_none k.revoked_at ≡ true
    → get_api_key id (revoke_rows id reason now rows) ≡ some (revoked_row reason now k)
unfolding get_api_key revoke_rows
get_api_key-revoke_rows id reason now k [] found live = cc
get_api_key-revoke_rows id reason now k (r ∷ rows) found live =
    elim (Bool-cases (text_eq r.id id)) [
      | inl e ↦
          let own : r ≡ k = some-injective _ _ (rw e at found) in
          subst
            (λ j.
              get_api_key id (revoke_rows id reason now (r ∷ rows))
              ≡ some (revoked_row reason now j))
            own (simp (e, ap (λ j. is_none j.revoked_at) own ∙ live) refl)
      | inr e ↦ simp e (get_api_key-revoke_rows id reason now k rows (rw e at found) live)
    ]
