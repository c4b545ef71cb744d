-- ===== src/Onramp/Retries.antt =====
-- A request for an on-ramp order that is made again under its idempotency key
-- (internal/server/handlers/wallet_group_onramp.go).
use mathlib.Core.Path.{subst}
use atara_pay.Base.{
  ◌≡◌, refl, sym, ap, ◌∙◌, inl, inr, false, ◌&&◌, Option, some, List, [], ◌∷◌, ◌++◌, Text, text_eq,
  text_eq_refl, is_nil, ok, err, Bool-cases, arith,
}
use atara_pay.Http.{Caller, Failure, Reply}
use atara_pay.Http.Post.{
  Post, guard-Post, need-Post, attempt-Post, given-Post, bind-Post, state-Post, Post-ok, Post-err,
  Post-state, Post-weaken,
}
use atara_pay.Limits.Calendar.{Time}
use atara_pay.Transfers.Rows.{WalletGroup, Wallet, pgx_text, sql_eq}
use atara_pay.Onramp.{
  CreateOnrampRequest, OnrampCall, ProviderOrder, OnrampOrder, OnrampOrderView, Visit, order_of_key,
  order_insertable, onramp_wallet, onramp_target,
}
use atara_pay.Onramp.Create.{
  Provider, Till, call_for, place_order, order_row, record_onramp, create_onramp_order,
  create_onramp,
}
use atara_pay.Onramp.Orders.{create_onramp-Post, IsOrderFor-call_for}

-- A tenant's key has its row.
abbrev pub IsTaken : Text → Option Text → List OnrampOrder → Type 0
IsTaken tenant key rows = (o : OnrampOrder) × (order_of_key tenant key rows ≡ some o)

more-IsTaken :
    (tenant : Text) (key : Option Text) (o : OnrampOrder) (rows : List OnrampOrder)
    → IsTaken tenant key rows
    → IsTaken tenant key (o ∷ rows)
unfolding order_of_key
more-IsTaken tenant key o rows (k, h) =
    elim (Bool-cases (text_eq o.tenant_id tenant && sql_eq o.idempotency_key key)) [
      | inl e ↦ (o, rw e refl)
      | inr e ↦ (k, rw e h)
    ]

own-IsTaken :
    (o : OnrampOrder) (key : Text) (rows : List OnrampOrder)
    → o.idempotency_key ≡ pgx_text key
    → is_nil key ≡ false
    → IsTaken o.tenant_id (pgx_text key) (o ∷ rows)
unfolding order_of_key
own-IsTaken o key rows same filled =
    (o, simp (same, filled, text_eq_refl o.tenant_id, text_eq_refl key) refl)

taken-full :
    (o : OnrampOrder) (rows : List OnrampOrder)
    → IsTaken o.tenant_id o.idempotency_key rows
    → order_insertable o rows ≡ false
unfolding order_insertable
taken-full o rows (k, h) = ground arith

-- The requests of an on-ramp, each with what it meets.
pub record OnrampOp : Type 0 where
  pub caller : Caller
  pub visit : Visit
  pub group_id : Text
  pub req : CreateOnrampRequest

module _ (lib : Provider) (groups : List WalletGroup) (wallets : List Wallet) where
  unfoldable pub serve_onramps : List OnrampOp → Till → Till
  serve_onramps [] s = s
  serve_onramps (op ∷ ops) s =
      serve_onramps ops (create_onramp lib groups wallets op.caller op.visit op.group_id op.req s).1

  create_onramp-IsTaken :
      (op : OnrampOp) (tenant : Text) (key : Option Text) (s : Till)
      → IsTaken tenant key s.orders
      → IsTaken tenant key
          (create_onramp lib groups wallets op.caller op.visit op.group_id op.req s).1.orders
  create_onramp-IsTaken op tenant key s held = Post-state (
      Post-weaken (create_onramp-Post groups wallets op.caller op.visit op.group_id lib op.req s)
        (λ answer t done.
          subst (IsTaken tenant key) (sym done.orders) (more-IsTaken tenant key _ s.orders held))
        (λ t refused. subst (IsTaken tenant key) (sym refused.0) held))

  serve_onramps-IsTaken :
      (ops : List OnrampOp) (tenant : Text) (key : Option Text) (s : Till)
      → IsTaken tenant key s.orders
      → IsTaken tenant key (serve_onramps ops s).orders
  unfolding serve_onramps
  serve_onramps-IsTaken [] tenant key s held = held
  serve_onramps-IsTaken (op ∷ ops) tenant key s held =
      serve_onramps-IsTaken ops tenant key _ (create_onramp-IsTaken op tenant key s held)

  module _ (caller : Caller) (visit : Visit) (group_id : Text) (req : CreateOnrampRequest) where
    -- The order is placed again, and not stored.
    abbrev IsWasted : Wallet → Till → Till → Type 0
    IsWasted wallet s t =
        (t.orders ≡ s.orders) × (t.calls ≡ s.calls ++ call_for lib wallet req ∷ [])

    record_onramp-full :
        (group : WalletGroup) (wallet : Wallet) (order : ProviderOrder) (s t : Till)
        → IsTaken caller.tenant_id (pgx_text req.idempotency_key) t.orders
        → IsWasted wallet s t
        → Post
            (λ row t'. ⊥)
            (IsWasted wallet s)
            (record_onramp lib caller visit group wallet req order t)
    unfolding record_onramp order_row create_onramp_order
    record_onramp-full group wallet order s t held wasted = need-Post _ _ wasted λ amount read.
        state-Post _ (
          guard-Post _ _ wasted λ free.
            let full =
              taken-full (order_row lib caller visit group wallet req order amount) t.orders held in
            absurd (ground arith))

    create_onramp-full :
        (group : WalletGroup) (wallet : Wallet) (s : Till)
        → onramp_target groups wallets caller visit group_id req ≡ ok (group, wallet)
        → IsTaken caller.tenant_id (pgx_text req.idempotency_key) s.orders
        → Post
            (λ answer t. ⊥)
            (IsWasted wallet s)
            (create_onramp lib groups wallets caller visit group_id req s)
    unfolding create_onramp place_order
    create_onramp-full group wallet s admitted held =
        given-Post _ _ (group, wallet) admitted
          (attempt-Post _ _ (refl, refl)
            λ order placed.
              bind-Post _ (record_onramp-full group wallet order s _ held (refl, refl))
                λ row t never. absurd never)

  -- When a request for an on-ramp order under an idempotency key has succeeded, then the same
  -- request made again, at any time and after any other requests, fails and stores nothing, but it
  -- places the same order with CrossMint once more.
  pub create_onramp_again :
      (caller : Caller) (visit : Visit) (group_id : Text) (req : CreateOnrampRequest) (s : Till)
      (answer : Reply OnrampOrderView) (ops : List OnrampOp) (later : Time) (next_id : Text)
      → (create_onramp lib groups wallets caller visit group_id req s).0 ≡ ok answer
      → is_nil req.idempotency_key ≡ false
      → (call : OnrampCall) × ((create_onramp lib groups wallets caller visit group_id req
            s).1.calls
          ≡ s.calls ++ call ∷ [])
        × (f : Failure) × (t : Till) × (create_onramp lib groups wallets caller
              (record visit { now = later; new_id = next_id })
              group_id
              req
              (serve_onramps ops (create_onramp lib groups wallets caller visit group_id req s).1)
            ≡ (err f, t))
        × (t.orders
            ≡ (serve_onramps ops
                (create_onramp lib groups wallets caller visit group_id req s).1).orders)
        × (t.calls
            ≡ (serve_onramps ops
                (create_onramp lib groups wallets caller visit group_id req s).1).calls
              ++ call ∷ [])
  unfolding onramp_target onramp_wallet order_row
  create_onramp_again caller visit group_id req s answer ops later next_id done filled =
      let made = Post-ok (create_onramp-Post groups wallets caller visit group_id lib req s) done in
      let taken : IsTaken caller.tenant_id (pgx_text req.idempotency_key)
          (create_onramp lib groups wallets caller visit group_id req s).1.orders =
        subst (IsTaken caller.tenant_id (pgx_text req.idempotency_key)) (sym made.orders) (
          subst (λ tenant. IsTaken tenant (pgx_text req.idempotency_key) (made.row ∷ s.orders))
            made.row_of.tenant_id
            (own-IsTaken made.row req.idempotency_key s.orders made.row_of.idempotency_key
              filled)) in
      let same : made.call ≡ call_for lib made.wallet req =
        IsOrderFor-call_for groups wallets caller visit group_id lib req s made.wallet made.call
          made.call_for_it in
      let retry =
        create_onramp-full caller (record visit { now = later; new_id = next_id }) group_id req
          made.group made.wallet
          (serve_onramps ops (create_onramp lib groups wallets caller visit group_id req s).1)
          made.admitted (serve_onramps-IsTaken ops _ _ _ taken) in
      let (f, t, failed, (stored, placed)) = Post-err retry (λ answer t never. never) in
      (
        call_for lib made.wallet req,
        made.calls ∙ ap (λ c. s.calls ++ c ∷ []) same,
        f,
        t,
        failed,
        stored,
        placed,
      )
