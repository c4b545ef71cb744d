-- ===== src/Members/Users.antt =====
-- Users by their address: who is found first stays first (internal/db/sqlcgen/users.sql.go).
use atara_pay.Base.{
  ◌≡◌, refl, sym, ap, ◌∙◌, true, false, none, List, [], ◌∷◌, ◌++◌, Text, text_eq, text_eq_refl,
  text_eq→eq, All, Bool-cases, inl, inr, arith,
}
use atara_pay.Transfers.Rows.{is_none}
use atara_pay.Members.{Tenant, User, Registry, get_user_by_email}
use atara_pay.Members.Signup.{owner_row}
use atara_pay.Members.Histories.{tenant_of_email, Change, same, added, withdrawn, opened}

-- The first user with an address.
abbrev pub IsFirst : Text → User → List User → Type 0
IsFirst email u users = (rest : List User) × (get_user_by_email email users ≡ u ∷ rest)

-- A user who is first stays first.
pub IsFirst-snoc :
    (email : Text) (u : User) (users : List User) (x : User)
    → IsFirst email u users
    → IsFirst email u (users ++ x ∷ [])
unfolding get_user_by_email
IsFirst-snoc email u [] x (rest, found) = absurd (cc)
IsFirst-snoc email u (v ∷ users) x (rest, found) = elim (Bool-cases (text_eq v.email email)) [
  | inl e ↦ (get_user_by_email email (users ++ x ∷ []), ground arith)
  | inr e ↦
      let (rest', found') = IsFirst-snoc email u users x (rest, rw e at found) in
      (rest', rw e found')
]

pub no_user :
    (email : Text) (tenants : List Tenant) (users : List User)
    → All (λ u. is_none (tenant_of_email u.email tenants) ≡ false) users
    → tenant_of_email email tenants ≡ none
    → get_user_by_email email users ≡ []
unfolding get_user_by_email
no_user email tenants [] homes absent = refl
no_user email tenants (u ∷ users) homes absent = elim (Bool-cases (text_eq u.email email)) [
  | inl e ↦
      let gone : tenant_of_email u.email tenants ≡ none =
        ap (λ t. tenant_of_email t tenants) (text_eq→eq u.email email e) ∙ absent in
      absurd (let no : true ≡ false = sym (ap is_none gone) ∙ homes.0 in cc)
  | inr e ↦ rw e (no_user email tenants users homes.1 absent)
]

pub new_user_found :
    (u : User) (users : List User)
    → get_user_by_email u.email users ≡ []
    → IsFirst u.email u (users ++ u ∷ [])
unfolding get_user_by_email
new_user_found u [] h = ([], rw (text_eq_refl u.email) refl)
new_user_found u (v ∷ users) h = elim (Bool-cases (text_eq v.email u.email)) [
  | inl e ↦ absurd (let no : v ∷ get_user_by_email u.email users ≡ [] = rw e at h in cc)
  | inr e ↦ let (rest, found) = new_user_found u users (rw e at h) in (rest, rw e found)
]

pub Change-IsFirst :
    (email : Text) (u : User) (s s' : Registry)
    → Change s s'
    → IsFirst email u s.users
    → IsFirst email u s'.users
Change-IsFirst email u s s' same h = h
Change-IsFirst email u s s' (added k free) h = h
Change-IsFirst email u s s' (withdrawn id reason now) h = h
Change-IsFirst email u s s' (opened draw req hash test live new free_test free_live) h =
    IsFirst-snoc email u s.users (owner_row draw req hash) h
