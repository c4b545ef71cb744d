-- ===== src/Transfers/Settled.antt =====
-- The outcomes of `SendTransaction`: the limit gate, the rail call and the ledger.
use mathlib.Core.Path.{subst}
use atara_pay.Base.{
  ◌≡◌, refl, sym, ap, ◌∙◌, ◌⊎◌, inl, inr, Bool, true, false, some, [], ◌∷◌, ◌++◌, Text, codes,
  Result, ok, err, Bool-cases,
}
use atara_pay.Http.{Caller, Failure, Reply, ◌>>=◌, upstream_error}
use atara_pay.Http.Post.{
  Post, ok-Post, err-Post, guard-Post, need-Post, bind-Post, result-Post, Post-weaken,
}
use atara_pay.Limits.Counter.{Redis}
use atara_pay.Limits.Policy.{Querier, Std, CheckError}
use atara_pay.Limits.Service.{World, CheckResult, check}
use atara_pay.Transfers.{
  SendTransactionRequest, Rail, crossmint, tempo, TransactionView, to_tx_view,
}
use atara_pay.Transfers.Plane.{
  Artifact, RailCall, crossmint_create, tempo_transfer, Outside, Directory, Parts, Circumstances,
  Plane,
}
use atara_pay.Transfers.Rows.{Wallet, Transaction, insertable}
use atara_pay.Transfers.Send.{
  Grant, check_request, order_of, sent_row, call_rail, settle, limit_gate, send_via_crossmint,
  send_via_tempo, dispatch, record_transaction, announce, send_transaction, create_transaction,
}
use atara_pay.Transfers.Recorded.{rail_answer, IsRowOf, sent_row-IsRowOf}
use atara_pay.Transfers.Authorised.{IsGranted, authorise-IsGranted}

-- The call is the request's order, on the rail of the wallet.
pub data IsCallFor (rail : Rail) (w : Wallet) (req : SendTransactionRequest) (call : RailCall)
    : Type 0 where
  by_crossmint :
      rail ≡ crossmint
      → call ≡ crossmint_create (order_of w w.chain req) w.provider_locator
      → IsCallFor rail w req call
  by_tempo :
      (key : Text)
      → rail ≡ tempo
      → call ≡ tempo_transfer key (order_of w (codes "tempo") req)
      → IsCallFor rail w req call

module _ (std : Std) (r : Redis) where
  -- Nothing is written but counters, violations and their events.
  pub record IsQuiet (s s' : Plane std r) : Type 0 where
    pub calls : s'.rail_calls ≡ s.rail_calls
    pub ledger : s'.transactions ≡ s.transactions
    pub events : s'.announced ≡ s.announced

  -- The ledger, the events and the counters are as they were.
  pub record IsUnrecorded (s s' : Plane std r) : Type 0 where
    pub ledger : s'.transactions ≡ s.transactions
    pub events : s'.announced ≡ s.announced
    pub counters : s'.world ≡ s.world

  pub create_transaction-Post :
      (fails : Bool) (row : Transaction) (failure : Failure) (s : Plane std r)
      → Post
          (λ t s'.
            (t ≡ row)
            × (insertable row s.transactions ≡ true)
            × (s' ≡ record s { transactions = row ∷ s.transactions }))
          (λ s'. s' ≡ s)
          (create_transaction std r fails row failure s)
  unfolding create_transaction
  create_transaction-Post true row failure s = err-Post refl
  create_transaction-Post false row failure s = elim (Bool-cases (insertable row s.transactions)) [
    | inl e ↦ rw e (ok-Post (refl, refl, refl))
    | inr e ↦ rw e (err-Post refl)
  ]

module _ (std : Std) (r : Redis) (out : Outside) (q : Querier) (dir : Directory)
    (parts : Parts) where
  -- The limits are not wired, or `Check` has allowed the request and left these counters.
  pub data IsCleared (tenant : Text) (now : Circumstances) (grant : Grant)
      (req : SendTransactionRequest) (w w' : World std r) : Type 0 where
    unlimited : parts.limits_wired ≡ false → w' ≡ w → IsCleared tenant now grant req w w'
    allowed :
        (result : CheckResult)
        → parts.limits_wired ≡ true
        → (check std r q parts.wiring (check_request tenant grant req) now.check_clock w).0
          ≡ ok result
        → result.allowed ≡ true
        → w' ≡ (check std r q parts.wiring (check_request tenant grant req) now.check_clock w).1
        → IsCleared tenant now grant req w w'

  settle-Post :
      (answer : Result CheckError CheckResult × World std r) (s : Plane std r)
      → Post
          (λ unit s'.
            ((result : CheckResult) × (answer.0 ≡ ok result)
              × (result.allowed ≡ true)
              × (s'.world ≡ answer.1))
            × IsQuiet std r s s')
          (IsQuiet std r s)
          (settle std r answer s)
  unfolding settle
  settle-Post (err e, w) s = err-Post (record { calls = refl; ledger = refl; events = refl })
  settle-Post (ok result, w) s = elim (Bool-cases result.allowed) [
    | inl e ↦
        simp e
          (ok-Post ((result, refl, e, refl), record { calls = refl; ledger = refl; events = refl }))
    | inr e ↦ simp e (err-Post (record { calls = refl; ledger = refl; events = refl }))
  ]

  limit_gate-IsCleared :
      (tenant : Text) (now : Circumstances) (grant : Grant) (req : SendTransactionRequest)
      (s : Plane std r)
      → Post
          (λ unit s'. IsCleared tenant now grant req s.world s'.world × IsQuiet std r s s')
          (IsQuiet std r s)
          (limit_gate std r out q dir parts tenant now grant req s)
  unfolding limit_gate
  limit_gate-IsCleared tenant now grant req s = elim (Bool-cases parts.limits_wired) [
    | inr e ↦
        simp e (ok-Post (unlimited e refl, record { calls = refl; ledger = refl; events = refl }))
    | inl e ↦ simp e (
        Post-weaken
          (settle-Post
            (check std r q parts.wiring (check_request tenant grant req) now.check_clock s.world) s)
          (λ unit s' h.
            let ((result, found, passed, left), quiet) = h in
            (allowed result e found passed left, quiet))
          (λ s' quiet. quiet))
  ]

  -- What a dispatcher has done, either way.
  abbrev IsAnswered :
      Rail → Wallet → SendTransactionRequest → Plane std r → Artifact → Plane std r → Type 0
  IsAnswered rail w req s artifact s' =
      ((call : RailCall) × IsCallFor rail w req call
        × (s'.rail_calls ≡ s.rail_calls ++ call ∷ [])
        × (rail_answer out call s.rail_calls ≡ ok artifact))
      × IsUnrecorded std r s s'

  abbrev pub IsCalledOrNot :
      Rail → Wallet → SendTransactionRequest → Plane std r → Plane std r → Type 0
  IsCalledOrNot rail w req s s' =
      ((s'.rail_calls ≡ s.rail_calls)
        ⊎ ((call : RailCall) × IsCallFor rail w req call
            × (s'.rail_calls ≡ s.rail_calls ++ call ∷ [])))
      × IsUnrecorded std r s s'

  call_rail-IsAnswered :
      (rail : Rail) (w : Wallet) (req : SendTransactionRequest) (call : RailCall)
      (answer : Result Text Artifact) (s : Plane std r)
      → IsCallFor rail w req call
      → rail_answer out call s.rail_calls ≡ answer
      → Post (IsAnswered rail w req s) (IsCalledOrNot rail w req s) (call_rail std r call answer s)
  call_rail-IsAnswered rail w req call answer s for_it says =
      result-Post answer upstream_error _
        (inr (call, for_it, refl), record { ledger = refl; events = refl; counters = refl })
        λ a found. (
          (call, for_it, refl, says ∙ found),
          record { ledger = refl; events = refl; counters = refl },
        )

  dispatch-IsAnswered :
      (rail : Rail) (w : Wallet) (req : SendTransactionRequest) (s : Plane std r)
      → Post
          (IsAnswered rail w req s)
          (IsCalledOrNot rail w req s)
          (dispatch std r out q dir parts rail w req s)
  unfolding dispatch send_via_crossmint send_via_tempo
  dispatch-IsAnswered crossmint w req s =
      call_rail-IsAnswered crossmint w req _ _ s (by_crossmint refl refl) refl
  dispatch-IsAnswered tempo w req s =
      let idle : IsCalledOrNot tempo w req s s =
        (inl refl, record { ledger = refl; events = refl; counters = refl }) in
      guard-Post _ _ idle λ stored. need-Post _ _ idle λ version found.
        need-Post _ _ idle
          λ key opened. call_rail-IsAnswered tempo w req _ _ s (by_tempo key refl refl) refl

  -- The row that is recorded, and the announcement of it.
  pub record IsRecorded (caller : Caller) (now : Circumstances) (grant : Grant)
      (req : SendTransactionRequest) (artifact : Artifact) (s : Plane std r)
      (answer : Reply TransactionView) (s' : Plane std r) : Type 0 where
    pub amount : Text
    pub stored_amount : out.to_numeric req.amount ≡ some amount
    pub ledger : s'.transactions ≡ sent_row caller now grant req artifact amount ∷ s.transactions
    pub fits : insertable (sent_row caller now grant req artifact amount) s.transactions ≡ true
    pub status : answer.status ≡ 201
    pub body : answer.body ≡ to_tx_view (sent_row caller now grant req artifact amount)
    pub calls : s'.rail_calls ≡ s.rail_calls
    pub counters : s'.world ≡ s.world

  record_and_announce-IsRecorded :
      (caller : Caller) (now : Circumstances) (grant : Grant) (req : SendTransactionRequest)
      (artifact : Artifact) (s : Plane std r)
      → Post
          (IsRecorded caller now grant req artifact s)
          (λ s'. s' ≡ s)
          ((record_transaction std r out q dir parts caller now grant req artifact
              >>= announce std r out q dir parts caller grant)
            s)
  unfolding record_transaction announce
  record_and_announce-IsRecorded caller now grant req artifact s =
      bind-Post
        {R = λ row s'.
          (amount : Text) × (out.to_numeric req.amount ≡ some amount)
          × (row ≡ sent_row caller now grant req artifact amount)
          × (insertable (sent_row caller now grant req artifact amount) s.transactions ≡ true)
          × (s' ≡ record s {
            transactions = sent_row caller now grant req artifact amount ∷ s.transactions;
          })}
        _
        (need-Post _ _ refl λ amount stored.
          Post-weaken (create_transaction-Post std r _ _ _ s)
            (λ row s' h. (amount, stored, h.0, h.1, h.2)) (λ s' same. same))
        λ row s' h.
          let (amount, stored, same, fits, left) = h in
          ok-Post (record {
            amount = amount;
            stored_amount = stored;
            ledger = ap (λ p. p.transactions) left;
            fits = fits;
            status = refl;
            body = ap to_tx_view same;
            calls = ap (λ p. p.rail_calls) left;
            counters = ap (λ p. p.world) left;
          })

  -- Money has moved: one call, for the order of a caller who may move it, past the limits.
  pub record IsMoved (caller : Caller) (now : Circumstances) (group_id : Text)
      (req : SendTransactionRequest) (grant : Grant) (s s' : Plane std r) : Type 0 where
    pub granted : IsGranted out dir caller now group_id req grant
    pub cleared : IsCleared caller.tenant_id now grant req s.world s'.world
    pub call : RailCall
    pub call_for : IsCallFor grant.rail grant.wallet req call
    pub called : s'.rail_calls ≡ s.rail_calls ++ call ∷ []

  -- A transfer that succeeds has moved money once, and the ledger has one more row for it.
  pub record IsSettled (caller : Caller) (now : Circumstances) (group_id : Text)
      (req : SendTransactionRequest) (s : Plane std r) (answer : Reply TransactionView)
      (s' : Plane std r) : Type 0 where
    pub grant : Grant
    pub moved : IsMoved caller now group_id req grant s s'
    pub artifact : Artifact
    pub amount : Text
    pub answered : rail_answer out moved.call s.rail_calls ≡ ok artifact
    pub stored_amount : out.to_numeric req.amount ≡ some amount
    pub row : Transaction
    pub row_of : IsRowOf caller now grant req artifact amount row answer.body
    pub ledger : s'.transactions ≡ row ∷ s.transactions
    pub fits : insertable row s.transactions ≡ true
    pub status : answer.status ≡ 201

  -- A transfer that fails leaves the ledger as it was; money has moved at most once, and then
  -- only as it may.
  pub record IsAbandoned (caller : Caller) (now : Circumstances) (group_id : Text)
      (req : SendTransactionRequest) (s s' : Plane std r) : Type 0 where
    pub ledger : s'.transactions ≡ s.transactions
    pub calls :
        (s'.rail_calls ≡ s.rail_calls)
        ⊎ ((grant : Grant) × IsMoved caller now group_id req grant s s')

  -- The steps from the grant to the rail call.
  moved :
      (caller : Caller) (now : Circumstances) (group_id : Text) (req : SendTransactionRequest)
      (s s₁ s₂ s' : Plane std r) (grant : Grant)
      → IsGranted out dir caller now group_id req grant
      → IsCleared caller.tenant_id now grant req s.world s₁.world
      → IsQuiet std r s s₁
      → ((call : RailCall) × IsCallFor grant.rail grant.wallet req call
          × (s₂.rail_calls ≡ s₁.rail_calls ++ call ∷ []))
      → s₂.world ≡ s₁.world
      → s'.rail_calls ≡ s₂.rail_calls
      → s'.world ≡ s₂.world
      → IsMoved caller now group_id req grant s s'
  moved caller now group_id req s s₁ s₂ s' grant granted cleared quiet call same_world calls world =
      record {
        granted = granted;
        cleared =
            subst (λ w. IsCleared caller.tenant_id now grant req s.world w)
              (sym (world ∙ same_world)) cleared;
        call = call.0;
        call_for = call.1;
        called = calls ∙ call.2 ∙ ap (λ cs. cs ++ call.0 ∷ []) quiet.calls;
      }

  dispatch_and_record-Post :
      (caller : Caller) (now : Circumstances) (group_id : Text) (req : SendTransactionRequest)
      (s s₁ : Plane std r) (grant : Grant)
      → IsGranted out dir caller now group_id req grant
      → IsCleared caller.tenant_id now grant req s.world s₁.world
      → IsQuiet std r s s₁
      → Post (IsSettled caller now group_id req s) (IsAbandoned caller now group_id req s) (
          (dispatch std r out q dir parts grant.rail grant.wallet req >>= λ artifact.
          record_transaction std r out q dir parts caller now grant req artifact
          >>= announce std r out q dir parts caller grant)
            s₁)
  unfolding moved
  dispatch_and_record-Post caller now group_id req s s₁ grant granted cleared quiet =
      bind-Post _
        (Post-weaken (dispatch-IsAnswered grant.rail grant.wallet req s₁) (λ artifact s₂ h. h)
          λ s₂ h. record {
            ledger = h.1.ledger ∙ quiet.ledger;
            calls = elim h.0 [
              | inl idle ↦ inl (idle ∙ quiet.calls)
              | inr call ↦ inr (
                grant,
                moved caller now group_id req s s₁ s₂ s₂ grant granted cleared quiet call
                    h.1.counters refl refl,
              )
            ];
          })
        λ artifact s₂ ((placed, for_it, called, says), unrecorded).
          let call : (call : RailCall) × IsCallFor grant.rail grant.wallet req call
              × (s₂.rail_calls ≡ s₁.rail_calls ++ call ∷ []) =
            (placed, for_it, called) in
          Post-weaken (record_and_announce-IsRecorded caller now grant req artifact s₂)
            (λ answer s' h. record {
              grant = grant;
              moved =
                  moved caller now group_id req s s₁ s₂ s' grant granted cleared quiet call
                    unrecorded.counters h.calls h.counters;
              artifact = artifact;
              amount = h.amount;
              answered = ap (rail_answer out placed) (sym quiet.calls) ∙ says;
              row = sent_row caller now grant req artifact h.amount;
              row_of =
                  subst
                    (IsRowOf caller now grant req artifact h.amount
                      (sent_row caller now grant req artifact h.amount))
                    (sym h.body) (sent_row-IsRowOf caller now grant req artifact h.amount);
              stored_amount = h.stored_amount;
              ledger =
                  h.ledger
                  ∙ ap (◌∷◌ (sent_row caller now grant req artifact h.amount))
                      (unrecorded.ledger ∙ quiet.ledger);
              fits = ap (insertable _) (sym (unrecorded.ledger ∙ quiet.ledger)) ∙ h.fits;
              status = h.status;
            })
            λ s' same. record {
              ledger = ap (λ p. p.transactions) same ∙ unrecorded.ledger ∙ quiet.ledger;
              calls = inr (
                grant,
                moved caller now group_id req s s₁ s₂ s' grant granted cleared quiet call
                    unrecorded.counters (ap (λ p. p.rail_calls) same) (ap (λ p. p.world) same),
              );
            }

  pub send_transaction-Post :
      (caller : Caller) (now : Circumstances) (group_id : Text) (req : SendTransactionRequest)
      (s : Plane std r)
      → Post
          (IsSettled caller now group_id req s)
          (IsAbandoned caller now group_id req s)
          (send_transaction std r out q dir parts caller now group_id req s)
  unfolding send_transaction
  send_transaction-Post caller now group_id req s =
      bind-Post _
        (Post-weaken (authorise-IsGranted std r out q dir parts caller now group_id req s)
          (λ grant s₀ h. h)
          λ s₀ same. record {
            ledger = ap (λ p. p.transactions) same;
            calls = inl (ap (λ p. p.rail_calls) same);
          })
        λ grant s₀ (granted, same).
          bind-Post _
            (Post-weaken
              (subst
                (λ t.
                  Post
                    (λ unit s₁.
                      IsCleared caller.tenant_id now grant req s.world s₁.world
                      × IsQuiet std r s s₁)
                    (IsQuiet std r s)
                    (limit_gate std r out q dir parts caller.tenant_id now grant req t))
                (sym same) (limit_gate-IsCleared caller.tenant_id now grant req s))
              (λ unit s₁ h. h)
              λ s₁ quiet. record { ledger = quiet.ledger; calls = inl quiet.calls })
            λ unit s₁ (cleared, quiet).
              dispatch_and_record-Post caller now group_id req s s₁ grant granted cleared quiet
