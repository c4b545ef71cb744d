-- ===== src/Transfers/Histories.antt =====
-- Sequences of sends, preparations and submissions, and the ledger that they leave
-- (internal/server/handlers/wallet_group_tx.go, wallet_group_tx_prepare.go).
use mathlib.Core.Path.{subst}
use mathlib.Core.Option.{some-injective}
use atara_pay.Base.{
  ◌≡◌, ◌≢◌, sym, ap, ◌∙◌, Option, none, some, List, [], ◌∷◌, Text, codes, text_eq→eq, first_holds,
  Result,
}
use atara_pay.Http.{Caller, Failure, Reply}
use atara_pay.Http.Post.{Post-state, Post-weaken}
use atara_pay.Limits.Counter.{Redis}
use atara_pay.Limits.Policy.{Querier, Std}
use atara_pay.Transfers.{SendTransactionRequest, PrepareTransactionRequest, TransactionView}
use atara_pay.Transfers.Plane.{Outside, Directory, Parts, Circumstances, Plane}
use atara_pay.Transfers.Rows.{Transaction, get_transaction}
use atara_pay.Transfers.Send.{send_transaction}
use atara_pay.Transfers.Prepare.{SubmitTransactionRequest, prepare_transaction, submit_transaction}
use atara_pay.Transfers.Safety.{
  SettledOrAbandoned, settled, abandoned, send_transaction-SettledOrAbandoned,
}
use atara_pay.Transfers.Submitted.{
  unwritten, written, IsBroadcast-IsSubmitted, IsSubmitted, untouched, submitted,
  submit_transaction-Post, IsPrepared, kept, opened, prepare_transaction-Post,
}
use atara_pay.Transfers.Lifecycle.{Advances, stays, opens, moves, insert-Advances, update-Advances}

-- A request to one of the three endpoints, and what it meets.
pub data Operation : Type 0 where
  send : Caller → Circumstances → Text → SendTransactionRequest → Operation
  prepare : Caller → Circumstances → Text → PrepareTransactionRequest → Operation
  submit : Caller → Circumstances → Text → SubmitTransactionRequest → Operation

abbrev pub status_of : Option Transaction → Option Text
status_of none = none
status_of (some t) = some t.status

-- What the ledger promises of one id: the status of a row, from when it is opened.
pub data StatusStep : Option Text → Option Text → Type 0 where
  rests : {o : Option Text} → StatusStep o o
  is_opened : (status : Text) → StatusStep none (some status)
  is_broadcast : StatusStep (some (codes "prepared")) (some (codes "broadcast"))
  is_failed : StatusStep (some (codes "prepared")) (some (codes "failed"))

module _ (std : Std) (r : Redis) (out : Outside) (q : Querier) (dir : Directory)
    (parts : Parts) where
  -- The state that an operation leaves.
  unfoldable pub serve : Operation → Plane std r → Plane std r
  serve (send caller now group_id req) s =
      (send_transaction std r out q dir parts caller now group_id req s).1
  serve (prepare caller now group_id req) s =
      (prepare_transaction std r out dir caller now group_id req s).1
  serve (submit caller now group_id req) s =
      (submit_transaction std r out caller now group_id req s).1

  unfoldable pub serve_all : List Operation → Plane std r → Plane std r
  serve_all [] s = s
  serve_all (op ∷ ops) s = serve_all ops (serve op s)

  AdvancesTo : Text → List Transaction → List Transaction → Type 0
  AdvancesTo id rows rows' = Advances (get_transaction id rows) (get_transaction id rows')

  unchanged : (id : Text) (rows rows' : List Transaction) → rows' ≡ rows → AdvancesTo id rows rows'
  unfolding AdvancesTo
  unchanged id rows rows' same = subst (AdvancesTo id rows) (sym same) stays

  settled-Advances :
      (caller : Caller) (now : Circumstances) (group_id : Text) (req : SendTransactionRequest)
      (s : Plane std r) (m : Result Failure (Reply TransactionView) × Plane std r) (id : Text)
      → SettledOrAbandoned std r out q dir parts caller now group_id req s m
      → AdvancesTo id s.transactions m.1.transactions
  unfolding AdvancesTo
  settled-Advances caller now group_id req s m id (settled answer s' h) =
      subst (AdvancesTo id s.transactions) (sym h.ledger)
        (insert-Advances id _ s.transactions h.fits)
  settled-Advances caller now group_id req s m id (abandoned e s' same) = unchanged id _ _ same

  prepared-Advances :
      (caller : Caller) (group_id : Text) (s s' : Plane std r) (id : Text)
      → IsPrepared std r out caller group_id dir s s'
      → AdvancesTo id s.transactions s'.transactions
  unfolding AdvancesTo
  prepared-Advances caller group_id s s' id (kept same) =
      unchanged id _ _ (ap (λ p. p.transactions) same)
  prepared-Advances caller group_id s s' id
        (opened group row found own tenant of status fits same) =
      subst (AdvancesTo id s.transactions) (sym (ap (λ p. p.transactions) same))
        (insert-Advances id row s.transactions fits)

  -- The row that is loaded by its id has that id.
  pub loaded :
      (id : Text) (rows : List Transaction) (row : Transaction)
      → get_transaction id rows ≡ some row
      → row.id ≡ id
  unfolding get_transaction
  loaded id rows row h = text_eq→eq row.id id (first_holds _ rows row h)

  submitted-Advances :
      (caller : Caller) (now : Circumstances) (group_id : Text) (req : SubmitTransactionRequest)
      (s s' : Plane std r) (id : Text)
      → IsSubmitted std r out caller now group_id req s s'
      → AdvancesTo id s.transactions s'.transactions
  unfolding AdvancesTo
  submitted-Advances caller now group_id req s s' id (untouched same) =
      unchanged id _ _ (ap (λ p. p.transactions) same)
  submitted-Advances caller now group_id req s s' id
        (submitted row found tenant group ready fresh calls (unwritten same)) =
      unchanged id _ _ same
  submitted-Advances caller now group_id req s s' id
        (submitted row found tenant group ready fresh calls (written status hash which same)) =
      subst (AdvancesTo id s.transactions) (sym same) (
        update-Advances status hash now.now id row s.transactions
          (subst (λ i. get_transaction i s.transactions ≡ some row)
            (sym (loaded req.prepare_id s.transactions row found)) found)
          ready which)

  pub submit_state :
      (caller : Caller) (now : Circumstances) (group_id : Text) (req : SubmitTransactionRequest)
      (s : Plane std r)
      → IsSubmitted std r out caller now group_id req s
          (submit_transaction std r out caller now group_id req s).1
  submit_state caller now group_id req s = Post-state (
      Post-weaken (submit_transaction-Post std r out caller now group_id req s)
        (λ reply s' h. IsBroadcast-IsSubmitted std r out caller now group_id req s s' h) λ s' h. h)

  still :
      (o o' : Option Transaction) (t : Transaction)
      → o ≡ some t
      → t.status ≢ codes "prepared"
      → Advances o o'
      → o' ≡ some t
  still o o' t e final stays = e
  still o o' t e final (opens u) = absurd (cc)
  still o o' t e final (moves u status hash now ready which) =
      absurd (final (ap (λ x. x.status) (some-injective t u (sym e)) ∙ ready))

  -- Whatever an operation is and whatever its answer, the row of each id stays as it is, or is
  -- opened, or was prepared and has become broadcast or failed, with nothing else of it changed
  -- but the transaction hash and the time of confirmation.
  pub serve-Advances :
      (op : Operation) (s : Plane std r) (id : Text)
      → Advances (get_transaction id s.transactions) (get_transaction id (serve op s).transactions)
  unfolding serve AdvancesTo
  serve-Advances (send caller now group_id req) s id =
      settled-Advances caller now group_id req s _ id
        (send_transaction-SettledOrAbandoned std r out q dir parts caller now group_id req s)
  serve-Advances (prepare caller now group_id req) s id =
      prepared-Advances caller group_id s _ id
        (Post-state (prepare_transaction-Post std r out dir caller now group_id req s))
  serve-Advances (submit caller now group_id req) s id =
      submitted-Advances caller now group_id req s _ id (submit_state caller now group_id req s)

  -- No operation changes a row that is not prepared, or takes one away, in any sequence.
  pub serve_all-frozen :
      (ops : List Operation) (s : Plane std r) (id : Text) (t : Transaction)
      → get_transaction id s.transactions ≡ some t
      → t.status ≢ codes "prepared"
      → get_transaction id (serve_all ops s).transactions ≡ some t
  unfolding serve_all
  serve_all-frozen [] s id t found final = found
  serve_all-frozen (op ∷ ops) s id t found final =
      serve_all-frozen ops (serve op s) id t (still _ _ t found final (serve-Advances op s id))
        final
