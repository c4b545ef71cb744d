-- ===== src/Accounts/Create/Kept.antt =====
-- A group that a reference finds stays the one that it finds through every request to create a
-- group (internal/server/handlers/wallet_groups.go).
use atara_pay.Base.{
  ◌≡◌, refl, ap, ◌∙◌, inl, inr, ◌&&◌, ◌||◌, Bool, true, false, not, Option, none, some, List, [],
  ◌∷◌, All, Text, text_eq, text_eq→eq, is_nil, Result, Bool-cases, Option-cases, arith,
  if◌then◌else◌,
}
use atara_pay.Http.{Caller}
use atara_pay.Http.Post.{
  Post, ok-Post, err-Post, Post-state, guard-Post, need-Post, attempt-Post, bind-Post, state-Post,
}
use atara_pay.Transfers.Rows.{WalletGroup}
use atara_pay.Accounts.{CreateGroupRequest}
use atara_pay.Accounts.Rows.{
  Accounts, Setting, Addresses, get_by_owner_ref, group_row, wallet_rows, group_insertable,
  chain_of, is_user,
}
use atara_pay.Accounts.Create.{
  order_wallet, platform_addresses, user_addresses, answer_reused, insert_group, find_group,
  create_new, create_trimmed, create_group, trimmed,
}

-- A request to create a group, with what it meets.
pub record CreateOp : Type 0 where
  pub caller : Caller
  pub env : Setting
  pub req : CreateGroupRequest

unfoldable pub serve_creates : List CreateOp → Accounts → Accounts
serve_creates [] s = s
serve_creates (op ∷ ops) s = serve_creates ops (create_group op.caller op.env op.req s).1

-- What other requests commit while this one runs takes no group from a reference.
abbrev pub TakesNoGroup : Setting → Type 0
TakesNoGroup env =
    (tenant ref : Text) (g : WalletGroup) (s : Accounts)
    → get_by_owner_ref tenant ref s.groups ≡ some g
    → get_by_owner_ref tenant ref (env.meanwhile s).groups ≡ some g

-- The unique index refuses a second group for the reference.
clash :
    (g row : WalletGroup) (rows : List WalletGroup)
    → get_by_owner_ref row.tenant_id row.owner_ref rows ≡ some g
    → group_insertable row rows ≡ false
unfolding get_by_owner_ref group_insertable
clash g row [] h = absurd (cc)
clash g row (k ∷ rows) h =
    elim (Bool-cases (text_eq k.tenant_id row.tenant_id && text_eq k.owner_ref row.owner_ref)) [
      | inl e ↦ rw e refl
      | inr e ↦ (let ih = clash g row rows in ground arith)
    ]

contradicts : (b : Bool) → b ≡ false → b ≡ true → ⊥
contradicts true full free = cc
contradicts false full free = cc

both_left : (a b : Bool) → (a && b) ≡ true → a ≡ true
both_left true b h = refl
both_left false b h = h

both_right : (a b : Bool) → (a && b) ≡ true → b ≡ true
both_right true b h = h
both_right false b h = absurd (cc)

module _ (tenant ref : Text) (g : WalletGroup) where
  -- The reference finds the group.
  abbrev Finds : Accounts → Type 0
  Finds s = get_by_owner_ref tenant ref s.groups ≡ some g

  other_row :
      (row : WalletGroup) (rows : List WalletGroup)
      → get_by_owner_ref tenant ref rows ≡ some g
      → (text_eq row.tenant_id tenant && text_eq row.owner_ref ref) ≡ false
      → get_by_owner_ref tenant ref (row ∷ rows) ≡ some g
  unfolding get_by_owner_ref
  other_row row rows h e = ground arith

  added-Finds :
      (row : WalletGroup) (rows : List WalletGroup)
      → get_by_owner_ref tenant ref rows ≡ some g
      → group_insertable row rows ≡ true
      → get_by_owner_ref tenant ref (row ∷ rows) ≡ some g
  added-Finds row rows h free =
      elim (Bool-cases (text_eq row.tenant_id tenant && text_eq row.owner_ref ref)) [
        | inr e ↦ other_row row rows h e
        | inl e ↦
            let own : row.tenant_id ≡ tenant = text_eq→eq row.tenant_id tenant (both_left _ _ e) in
            let named : row.owner_ref ≡ ref = text_eq→eq row.owner_ref ref (both_right _ _ e) in
            let full : group_insertable row rows ≡ false = clash g row rows (
              ap (λ t. get_by_owner_ref t row.owner_ref rows) own
              ∙ ap (λ k. get_by_owner_ref tenant k rows) named
              ∙ h) in
            absurd (contradicts _ full free)
      ]

  order_wallet-Finds :
      (client : Option (List Text → Text → Text → Result Text (Text × Text))) (chain owner : Text)
      (s : Accounts)
      → Finds s
      → Post (λ a. Finds) Finds (order_wallet client chain owner s)
  order_wallet-Finds none chain owner s h = ok-Post h
  order_wallet-Finds (some client) chain owner s h = attempt-Post _ _ h λ a ordered. ok-Post h

  answer_reused-Finds :
      (env : Setting) (k : WalletGroup) (s : Accounts)
      → Finds s
      → Post (λ a. Finds) Finds (answer_reused env k s)
  answer_reused-Finds env k s h = guard-Post _ _ h λ listed. ok-Post h

  module _ (caller : Caller) (env : Setting) (req : CreateGroupRequest) where
    platform_addresses-Finds :
        (s : Accounts) → Finds s → Post (λ a. Finds) Finds (platform_addresses caller env req s)
    unfolding platform_addresses
    platform_addresses-Finds s h =
        bind-Post _ (order_wallet-Finds env.crossmint _ _ s h)
          λ wallet s' h'. need-Post _ _ h' λ pair made. need-Post _ _ h' λ key sealed. ok-Post h'

    addresses-Finds :
        (s : Accounts)
        → Finds s
        → Post
            (λ a. Finds)
            Finds
            ((if is_user req then user_addresses req else platform_addresses caller env req) s)
    unfolding user_addresses
    addresses-Finds s h = elim (Bool-cases (is_user req)) [
      | inl e ↦ rw e (ok-Post h)
      | inr e ↦ rw e (platform_addresses-Finds s h)
    ]

    insert_group-Finds :
        (a : Addresses) (s : Accounts)
        → Finds s
        → Post (λ a. Finds) Finds (insert_group caller env req a s)
    unfolding insert_group
    insert_group-Finds a s h = elim (Bool-cases (env.begin_fails || env.group_insert_fails)) [
      | inl e ↦ simp e (err-Post h)
      | inr e ↦ elim (Bool-cases (group_insertable (group_row caller env req) s.groups)) [
        | inr taken ↦
            simp (e, taken)
              (state-Post _ (need-Post _ _ h λ winner e'. answer_reused-Finds env winner s h))
        | inl free ↦
            elim (Bool-cases (
              (env.wallet_insert_fails
                && not (is_nil (wallet_rows (group_row caller env req) env (chain_of env req) a)))
              || env.commit_fails)) [
                | inl lost ↦ simp (e, free, lost) (err-Post h)
                | inr kept ↦ simp (e, free, kept) (ok-Post (added-Finds _ s.groups h free))
              ]
      ]
    ]

    create_trimmed-Finds :
        TakesNoGroup env
        → (s : Accounts) → Finds s
        → Post (λ a. Finds) Finds (create_trimmed caller env req s)
    unfolding create_trimmed create_new
    create_trimmed-Finds quiet s h = guard-Post _ _ h λ known. attempt-Post _ _ h λ unit fine.
        elim (Option-cases (find_group caller env req.owner_ref s)) [
          | inl e ↦ rw e (
              bind-Post _ (addresses-Finds s h)
                λ a s' h'. insert_group-Finds a (env.meanwhile s') (quiet tenant ref g s' h'))
          | inr (k, e) ↦ rw e (answer_reused-Finds env k s h)
        ]

  pub serve_creates-Finds :
      (ops : List CreateOp) (s : Accounts)
      → All (λ op. TakesNoGroup op.env) ops
      → get_by_owner_ref tenant ref s.groups ≡ some g
      → get_by_owner_ref tenant ref (serve_creates ops s).groups ≡ some g
  unfolding serve_creates create_group
  serve_creates-Finds [] s quiet h = h
  serve_creates-Finds (op ∷ ops) s (here, later) h =
      serve_creates-Finds ops _ later
        (Post-state (create_trimmed-Finds op.caller op.env (trimmed op.req) here s h))
