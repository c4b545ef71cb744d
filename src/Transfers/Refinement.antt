-- ===== src/Transfers/Refinement.antt =====
-- The ledger against its specification, and submissions that are made again
-- (internal/server/handlers/wallet_group_tx.go, wallet_group_tx_prepare.go).
use mathlib.Core.Path.{subst}
use mathlib.Core.Option.{some-injective}
use atara_pay.Base.{◌≡◌, ◌≢◌, sym, ap, ◌∙◌, inl, inr, Option, some, List, [], ◌∷◌, Text, codes, ok}
use atara_pay.Http.{Caller, Reply}
use atara_pay.Http.Post.{Post-ok}
use atara_pay.Limits.Counter.{Redis}
use atara_pay.Limits.Policy.{Querier, Std}
use atara_pay.Transfers.Plane.{Outside, Directory, Parts, Circumstances, Plane}
use atara_pay.Transfers.Rows.{Transaction, get_transaction, set_status}
use atara_pay.Transfers.Prepare.{SubmitTransactionRequest, SubmittedView, submit_transaction}
use atara_pay.Transfers.Submitted.{IsSubmitted, untouched, submitted, submit_transaction-Post}
use atara_pay.Transfers.Lifecycle.{Advances, stays, opens, moves, get-update_same}
use atara_pay.Transfers.Histories.{
  Operation, status_of, StatusStep, rests, is_opened, is_broadcast, is_failed, serve, serve_all,
  serve-Advances, serve_all-frozen, submit_state, loaded,
}

-- Any number of steps of the specification.
pub data StatusRun : Option Text → Option Text → Type 0 where
  over : {o : Option Text} → StatusRun o o
  then_step : {o o' o'' : Option Text} → StatusStep o o' → StatusRun o' o'' → StatusRun o o''

step_of : (o o' : Option Transaction) → Advances o o' → StatusStep (status_of o) (status_of o')
unfolding set_status
step_of o o' stays = rests
step_of o o' (opens t) = is_opened t.status
step_of o o' (moves t status hash now ready (inl done)) =
    subst (λ a. StatusStep (some a) (some status)) (sym ready)
      (subst (λ b. StatusStep (some (codes "prepared")) (some b)) (sym done) is_broadcast)
step_of o o' (moves t status hash now ready (inr done)) =
    subst (λ a. StatusStep (some a) (some status)) (sym ready)
      (subst (λ b. StatusStep (some (codes "prepared")) (some b)) (sym done) is_failed)

module _ (std : Std) (r : Redis) (out : Outside) (q : Querier) (dir : Directory)
    (parts : Parts) where
  -- Every sequence of sends, preparations and submissions is, on the row of each id, a run of the
  -- specification: a row is opened at most once, and after that its status changes only from
  -- prepared to broadcast or to failed.
  pub serve_all_refines :
      (ops : List Operation) (s : Plane std r) (id : Text)
      → StatusRun
          (status_of (get_transaction id s.transactions))
          (status_of (get_transaction id (serve_all std r out q dir parts ops s).transactions))
  unfolding serve_all
  serve_all_refines [] s id = over
  serve_all_refines (op ∷ ops) s id =
      then_step (step_of _ _ (serve-Advances std r out q dir parts op s id))
        (serve_all_refines ops (serve std r out q dir parts op s) id)

  refused :
      (caller : Caller) (now : Circumstances) (group_id : Text) (req : SubmitTransactionRequest)
      (s s' : Plane std r) (t : Transaction)
      → get_transaction req.prepare_id s.transactions ≡ some t
      → t.status ≢ codes "prepared"
      → IsSubmitted std r out caller now group_id req s s'
      → s' ≡ s
  refused caller now group_id req s s' t found final (untouched same) = same
  refused caller now group_id req s s' t found final
        (submitted row found' tenant group ready fresh calls done) =
      absurd (final (ap (λ x. x.status) (some-injective t row (sym found ∙ found')) ∙ ready))

  -- A submission that has succeeded is never repeated: after it and any sequence of operations,
  -- another submission of the same prepared transaction, by any caller, broadcasts nothing and
  -- changes nothing.
  pub submit_transaction_once :
      (caller caller' : Caller) (now now' : Circumstances) (group_id group_id' : Text)
      (req req' : SubmitTransactionRequest) (ops : List Operation) (s : Plane std r)
      (reply : Reply SubmittedView)
      → (submit_transaction std r out caller now group_id req s).0 ≡ ok reply
      → req'.prepare_id ≡ req.prepare_id
      → (submit_transaction std r out caller' now' group_id' req' (
          serve_all std r out q dir parts ops
            (submit_transaction std r out caller now group_id req s).1)).1
        ≡ serve_all std r out q dir parts ops
            (submit_transaction std r out caller now group_id req s).1
  unfolding set_status
  submit_transaction_once caller caller' now now' group_id group_id' req req' ops s reply e same =
      let done = Post-ok (submit_transaction-Post std r out caller now group_id req s) e in
      let at_id : done.row.id ≡ req.prepare_id =
        loaded std r out q dir parts req.prepare_id s.transactions done.row done.found in
      let s₁ : Plane std r = (submit_transaction std r out caller now group_id req s).1 in
      let after_it : get_transaction done.row.id s₁.transactions
          ≡ some (set_status (codes "broadcast") done.hash now.now done.row) =
        ap (get_transaction done.row.id) done.ledger
        ∙ get-update_same (codes "broadcast") done.hash now.now done.row.id done.row s.transactions
            (ap (λ i. get_transaction i s.transactions) at_id ∙ done.found) in
      let final : codes "broadcast" ≢ codes "prepared" = cc in
      let frozen =
        serve_all-frozen std r out q dir parts ops s₁ req.prepare_id _
          (ap (λ i. get_transaction i s₁.transactions) (sym at_id) ∙ after_it) final in
      refused caller' now' group_id' req' (serve_all std r out q dir parts ops s₁) _ _
        (ap (λ i. get_transaction i (serve_all std r out q dir parts ops s₁).transactions) same
          ∙ frozen)
        final
        (submit_state std r out q dir parts caller' now' group_id' req'
          (serve_all std r out q dir parts ops s₁))
