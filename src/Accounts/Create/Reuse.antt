-- ===== src/Accounts/Create/Reuse.antt =====
-- A wallet group is created once for each reference of a tenant
-- (internal/server/handlers/wallet_groups.go).
use atara_pay.Base.{
  ◌≡◌, refl, sym, ap, ◌∙◌, inl, inr, ◌&&◌, ◌||◌, true, false, not, some, List, ◌∷◌, All, Text,
  text_eq_refl, is_nil, trim_space, Result, ok, err, Bool-cases, Option-cases, arith,
}
use atara_pay.Http.{and_then, guard, attempt, Caller, Failure, Reply}
use atara_pay.Http.Post.{
  Post, ok-Post, err-Post, Post-ok, guard-Post, need-Post, attempt-Post, bind-Post, state-Post,
}
use atara_pay.Transfers.Rows.{WalletGroup}
use atara_pay.Accounts.{CreateGroupRequest, GroupView, validate_create_group, to_group_view}
use atara_pay.Accounts.Rows.{
  Accounts, Setting, Addresses, get_by_owner_ref, wallets_of_group, group_row, wallet_rows,
  group_insertable, chain_of,
}
use atara_pay.Accounts.Create.Kept.{CreateOp, TakesNoGroup, serve_creates, serve_creates-Finds}
use atara_pay.Accounts.Create.{
  answer_reused, find_winner, insert_group, find_group, create_new, create_trimmed, create_group,
  trimmed,
}

-- The answer is about the group that the reference finds from then on.
abbrev pub IsTheGroup : Text → Text → Reply GroupView → Accounts → Type 0
IsTheGroup tenant ref reply s =
    (g : WalletGroup) × (get_by_owner_ref tenant ref s.groups ≡ some g) × (reply.body.id ≡ g.id)

module _ (caller : Caller) (env : Setting) (req : CreateGroupRequest) where
  answer_reused-Post :
      (g : WalletGroup) (s : Accounts)
      → get_by_owner_ref caller.tenant_id req.owner_ref s.groups ≡ some g
      → Post (IsTheGroup caller.tenant_id req.owner_ref) (λ s'. Unit {0}) (answer_reused env g s)
  unfolding to_group_view
  answer_reused-Post g s found = guard-Post _ _ tt λ listed. ok-Post (g, found, refl)

  new_group_found :
      (rows : List WalletGroup)
      → get_by_owner_ref caller.tenant_id req.owner_ref (group_row caller env req ∷ rows)
        ≡ some (group_row caller env req)
  unfolding get_by_owner_ref group_row
  new_group_found rows = simp (text_eq_refl caller.tenant_id, text_eq_refl req.owner_ref) refl

  won :
      (s : Accounts) (g : WalletGroup)
      → find_winner caller env req s ≡ some g
      → get_by_owner_ref caller.tenant_id req.owner_ref s.groups ≡ some g
  won s g h = ground arith

  insert_group-Post :
      (a : Addresses) (s : Accounts)
      → Post
          (IsTheGroup caller.tenant_id req.owner_ref)
          (λ s'. Unit {0})
          (insert_group caller env req a s)
  unfolding insert_group to_group_view
  insert_group-Post a s = elim (Bool-cases (env.begin_fails || env.group_insert_fails)) [
    | inl e ↦ simp e (err-Post tt)
    | inr e ↦ elim (Bool-cases (group_insertable (group_row caller env req) s.groups)) [
      | inr taken ↦
          simp (e, taken)
            (state-Post _
              (need-Post _ _ tt λ winner e'. answer_reused-Post winner s (won s winner e')))
      | inl free ↦
          elim (Bool-cases (
            (env.wallet_insert_fails
              && not (is_nil (wallet_rows (group_row caller env req) env (chain_of env req) a)))
            || env.commit_fails)) [
              | inl lost ↦ simp (e, free, lost) (err-Post tt)
              | inr kept ↦
                  simp (e, free, kept)
                    (ok-Post (group_row caller env req, new_group_found s.groups, refl))
            ]
    ]
  ]

  any-Post :
      {A : Type 0} (m : Result Failure A × Accounts) → Post (λ a s'. Unit {0}) (λ s'. Unit {0}) m
  any-Post (ok a, s) = ok-Post tt
  any-Post (err e, s) = err-Post tt

  create_new-Post :
      (s : Accounts)
      → Post
          (IsTheGroup caller.tenant_id req.owner_ref)
          (λ s'. Unit {0})
          (create_new caller env req s)
  unfolding create_new
  create_new-Post s =
      bind-Post _ (any-Post _)
        λ addresses s' anything. insert_group-Post addresses (env.meanwhile s')

  lookup :
      (s : Accounts) (g : WalletGroup)
      → find_group caller env req.owner_ref s ≡ some g
      → get_by_owner_ref caller.tenant_id req.owner_ref s.groups ≡ some g
  lookup s g h = ground arith

  create_trimmed-Post :
      (s : Accounts)
      → Post
          (IsTheGroup caller.tenant_id req.owner_ref)
          (λ s'. Unit {0})
          (create_trimmed caller env req s)
  unfolding create_trimmed
  create_trimmed-Post s = guard-Post _ _ tt λ known. attempt-Post _ _ tt λ unit fine.
      elim (Option-cases (find_group caller env req.owner_ref s)) [
        | inl e ↦ rw e (create_new-Post s)
        | inr (g, e) ↦ rw e (answer_reused-Post g s (lookup s g e))
      ]

  -- A request for a reference that has its group.
  reuses :
      (s : Accounts) (g : WalletGroup)
      → is_nil caller.tenant_id ≡ false
      → validate_create_group req ≡ ok tt
      → env.lookup_fails ≡ false
      → env.list_fails ≡ false
      → get_by_owner_ref caller.tenant_id req.owner_ref s.groups ≡ some g
      → create_trimmed caller env req s ≡ (
        ok (record { status = 200; body = to_group_view g (wallets_of_group g.id s.wallets) true }),
        s,
      )
  unfolding create_trimmed and_then guard attempt
  reuses s g known fine up listed found = simp (known, fine, up, found, listed) refl

-- Once a request to create a group has succeeded, and after any other requests to create groups,
-- whoever makes them, a request of the same tenant, with any of its keys, for the same reference,
-- blanks around it aside, that is valid and whose reads succeed is answered with that group, writes
-- nothing and orders no wallet from CrossMint; as long as what is committed while the others run
-- takes no group from its reference.
pub create_group_again :
    (caller caller' : Caller) (env env' : Setting) (req req' : CreateGroupRequest) (s : Accounts)
    (first_reply : Reply GroupView) (ops : List CreateOp)
    → (create_group caller env req s).0 ≡ ok first_reply
    → All (λ op. TakesNoGroup op.env) ops
    → caller'.tenant_id ≡ caller.tenant_id
    → trim_space req'.owner_ref ≡ trim_space req.owner_ref
    → is_nil caller'.tenant_id ≡ false
    → validate_create_group (trimmed req') ≡ ok tt
    → env'.lookup_fails ≡ false
    → env'.list_fails ≡ false
    → (again : Reply GroupView) × (create_group caller' env' req'
          (serve_creates ops (create_group caller env req s).1)
        ≡ (ok again, serve_creates ops (create_group caller env req s).1))
      × (again.body.id ≡ first_reply.body.id)
      × (again.body.reused ≡ true)
unfolding create_group to_group_view
create_group_again caller caller' env env' req req' s first_reply ops done quiet ours same known
      fine up listed =
    let s' : Accounts = (create_trimmed caller env (trimmed req) s).1 in
    let s'' : Accounts = serve_creates ops s' in
    let (g, found, answered) = Post-ok (create_trimmed-Post caller env (trimmed req) s) done in
    let kept =
      serve_creates-Finds caller.tenant_id (trim_space req.owner_ref) g ops s' quiet found in
    (
      record { status = 200; body = to_group_view g (wallets_of_group g.id s''.wallets) true },
      reuses caller' env' (trimmed req') s'' g known fine up listed (
          ap (λ tenant. get_by_owner_ref tenant (trim_space req'.owner_ref) s''.groups) ours
          ∙ ap (λ ref. get_by_owner_ref caller.tenant_id ref s''.groups) same
          ∙ kept),
      sym answered,
      refl,
    )
