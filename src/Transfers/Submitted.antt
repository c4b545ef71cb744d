-- ===== src/Transfers/Submitted.antt =====
-- The outcomes of `PrepareTransaction` and `SubmitTransaction`.
use atara_pay.Base.{
  ◌≡◌, refl, ◌⊎◌, inl, inr, ◌&&◌, Bool, true, false, Option, none, some, List, [], ◌∷◌, ◌++◌, Text,
  codes, text_eq, text_eq→eq, Result, ok, err, arith,
}
use atara_pay.Http.{Caller, Reply, Handler, internal_error}
use atara_pay.Http.Post.{
  Post, ok-Post, err-Post, guard-Post, need-Post, attempt-Post, bind-Post, Post-weaken, state-Post,
  last-need-Post, Post-state,
}
use atara_pay.Limits.Calendar.{Time}
use atara_pay.Limits.Counter.{Redis}
use atara_pay.Limits.Policy.{Std}
use atara_pay.Transfers.{PrepareTransactionRequest}
use atara_pay.Transfers.Plane.{tempo_broadcast, Outside, Directory, Circumstances, Plane}
use atara_pay.Transfers.Rows.{
  WalletGroup, Wallet, Transaction, get_transaction, get_wallet_group, insertable,
  update_transaction, set_status,
}
use atara_pay.Transfers.Prepare.{
  PreparedTxView, SubmitTransactionRequest, has_lapsed, prepared_row, replay, prepare_new,
  answer_replay, prepare_transaction, update_transaction_status, conclude, broadcast_signed,
  submit_transaction,
}
use atara_pay.Transfers.Authorised.{answered, refuted}
use atara_pay.Transfers.Settled.{create_transaction-Post}

-- What a submission may do to the ledger: nothing, or a change of the row that it has loaded.
pub data IsConcluded (now : Time) (row : Transaction) (rows rows' : List Transaction) : Type 0 where
  unwritten : rows' ≡ rows → IsConcluded now row rows rows'
  written :
      (status : Text) (hash : Option Text)
      → (status ≡ codes "broadcast") ⊎ (status ≡ codes "failed")
      → rows' ≡ update_transaction row.id (set_status status hash now) rows
      → IsConcluded now row rows rows'

module _ (std : Std) (r : Redis) (out : Outside) where
  -- A submission has done nothing, or it has broadcast the signed bytes once, for a prepared row of
  -- the caller's tenant and group that has not lapsed, and has changed that row only.
  pub data IsSubmitted (caller : Caller) (now : Circumstances) (group_id : Text)
      (req : SubmitTransactionRequest) (s s' : Plane std r) : Type 0 where
    untouched : s' ≡ s → IsSubmitted caller now group_id req s s'
    submitted :
        (row : Transaction)
        → get_transaction req.prepare_id s.transactions ≡ some row
        → row.tenant_id ≡ caller.tenant_id
        → row.group_id ≡ group_id
        → row.status ≡ codes "prepared"
        → has_lapsed std r out now.now row ≡ false
        → s'.rail_calls ≡ s.rail_calls ++ tempo_broadcast req.signed_tx_hex ∷ []
        → IsConcluded now.now row s.transactions s'.transactions
        → IsSubmitted caller now group_id req s s'

  -- A submission that succeeds has broadcast the signed bytes, and its row says so.
  pub record IsBroadcast (caller : Caller) (now : Circumstances) (group_id : Text)
      (req : SubmitTransactionRequest) (s s' : Plane std r) : Type 0 where
    pub row : Transaction
    pub hash : Option Text
    pub found : get_transaction req.prepare_id s.transactions ≡ some row
    pub tenant : row.tenant_id ≡ caller.tenant_id
    pub group : row.group_id ≡ group_id
    pub ready : row.status ≡ codes "prepared"
    pub fresh : has_lapsed std r out now.now row ≡ false
    pub calls : s'.rail_calls ≡ s.rail_calls ++ tempo_broadcast req.signed_tx_hex ∷ []
    pub ledger :
        s'.transactions
        ≡ update_transaction row.id (set_status (codes "broadcast") hash now.now) s.transactions

  pub IsBroadcast-IsSubmitted :
      (caller : Caller) (now : Circumstances) (group_id : Text) (req : SubmitTransactionRequest)
      (s s' : Plane std r)
      → IsBroadcast caller now group_id req s s'
      → IsSubmitted caller now group_id req s s'
  IsBroadcast-IsSubmitted caller now group_id req s s' h =
      submitted h.row h.found h.tenant h.group h.ready h.fresh h.calls
        (written (codes "broadcast") h.hash (inl refl) h.ledger)

  update_transaction_status-Post :
      (fails : Bool) (row : Transaction) (status : Text) (hash : Option Text) (now : Time)
      (s : Plane std r)
      → (status ≡ codes "broadcast") ⊎ (status ≡ codes "failed")
      → Post
          (λ t s'.
            (s'.transactions
              ≡ update_transaction row.id (set_status status hash now) s.transactions)
            × (s'.rail_calls ≡ s.rail_calls))
          (λ s'.
            IsConcluded now row s.transactions s'.transactions × (s'.rail_calls ≡ s.rail_calls))
          (update_transaction_status std r out fails row.id status hash now s)
  unfolding update_transaction_status
  update_transaction_status-Post true row status hash now s which = err-Post (unwritten refl, refl)
  update_transaction_status-Post false row status hash now s which =
      last-need-Post internal_error _ (written status hash which refl, refl) λ t found. (refl, refl)

  conclude-Post :
      (now : Circumstances) (row : Transaction) (answer : Result Text Text) (s : Plane std r)
      → Post
          (λ reply s'.
            ((hash : Option Text) × (s'.transactions
                ≡ update_transaction row.id
                    (set_status (codes "broadcast") hash now.now)
                    s.transactions))
            × (s'.rail_calls ≡ s.rail_calls))
          (λ s'.
            IsConcluded now.now row s.transactions s'.transactions × (s'.rail_calls ≡ s.rail_calls))
          (conclude std r out now row answer s)
  unfolding conclude
  conclude-Post now row (err e) s = err-Post (
      Post-state (
        Post-weaken
          (update_transaction_status-Post now.update_fails row (codes "failed") none now.now s
            (inr refl))
          (λ t s' h. (written (codes "failed") none (inr refl) h.0, h.1)) λ s' h. h))
  conclude-Post now row (ok hash) s =
      bind-Post _
        (update_transaction_status-Post now.update_fails row (codes "broadcast") _ now.now s
          (inl refl))
        λ t s' h. ok-Post ((_, h.0), h.1)

  owned :
      (row : Transaction) (tenant group : Text)
      → (text_eq row.tenant_id tenant && text_eq row.group_id group) ≡ true
      → (row.tenant_id ≡ tenant) × (row.group_id ≡ group)
  owned row tenant group h =
      (text_eq→eq row.tenant_id tenant (ground arith), text_eq→eq row.group_id group (ground arith))

  -- A submission that succeeds has broadcast the signed bytes once, for a prepared row of the
  -- caller's tenant and group that has not lapsed, and has set that row to broadcast; one that fails
  -- has done nothing, or the same broadcast and at most a change of that row to broadcast or failed.
  pub submit_transaction-Post :
      (caller : Caller) (now : Circumstances) (group_id : Text) (req : SubmitTransactionRequest)
      (s : Plane std r)
      → Post
          (λ reply. IsBroadcast caller now group_id req s)
          (IsSubmitted caller now group_id req s)
          (submit_transaction std r out caller now group_id req s)
  unfolding submit_transaction broadcast_signed
  submit_transaction-Post caller now group_id req s =
      let idle : IsSubmitted caller now group_id req s s = untouched refl in
      guard-Post _ _ idle λ known. guard-Post _ _ idle λ named. guard-Post _ _ idle λ complete.
        state-Post _ (
          need-Post _ _ idle λ row found. guard-Post _ _ idle λ own. guard-Post _ _ idle λ ready.
            guard-Post _ _ idle λ fresh.
              let (tenant, group) = owned row caller.tenant_id group_id own in
              Post-weaken (conclude-Post now row (out.broadcast s.rail_calls req.signed_tx_hex) _)
                (λ reply s' h. record {
                  row = row;
                  hash = h.0.0;
                  found = answered _ _ _ found;
                  tenant = tenant;
                  group = group;
                  ready = text_eq→eq _ _ ready;
                  fresh = refuted _ fresh;
                  calls = h.1;
                  ledger = h.0.1;
                })
                λ s' h.
                  submitted row (answered _ _ _ found) tenant group (text_eq→eq _ _ ready)
                    (refuted _ fresh) h.1 h.0)

  -- A preparation has done nothing, or it has put one row in the ledger, under a new id, prepared
  -- and for a group of the caller's tenant.
  pub data IsPrepared (caller : Caller) (group_id : Text) (dir : Directory) (s s' : Plane std r)
      : Type 0 where
    kept : s' ≡ s → IsPrepared caller group_id dir s s'
    opened :
        (group : WalletGroup) (row : Transaction)
        → get_wallet_group group_id dir.groups ≡ some group
        → group.tenant_id ≡ caller.tenant_id
        → row.tenant_id ≡ caller.tenant_id
        → row.group_id ≡ group.id
        → row.status ≡ codes "prepared"
        → insertable row s.transactions ≡ true
        → s' ≡ record s { transactions = row ∷ s.transactions }
        → IsPrepared caller group_id dir s s'

  prepare_new-IsPrepared :
      (dir : Directory) (caller : Caller) (now : Circumstances) (group_id : Text)
      (group : WalletGroup) (wallet : Wallet) (req : PrepareTransactionRequest) (s : Plane std r)
      → get_wallet_group group_id dir.groups ≡ some group
      → group.tenant_id ≡ caller.tenant_id
      → Post
          (λ reply. IsPrepared caller group_id dir s)
          (IsPrepared caller group_id dir s)
          (prepare_new std r out caller now group wallet req s)
  unfolding prepare_new prepared_row
  prepare_new-IsPrepared dir caller now group_id group wallet req s found own =
      attempt-Post _ _ (kept refl) λ built ready. need-Post _ _ (kept refl) λ amount stored.
        bind-Post _
          (Post-weaken (create_transaction-Post std r _ _ _ s) (λ row s' h. h) λ s' same. kept same)
          λ row s' h. ok-Post (opened group _ found own refl refl refl h.1 h.2)

  answer_replay-IsPrepared :
      (dir : Directory) (caller : Caller) (group_id : Text) (found : Option Transaction)
      (new : Handler (Plane std r) (Reply PreparedTxView)) (s : Plane std r)
      → Post (λ reply. IsPrepared caller group_id dir s) (IsPrepared caller group_id dir s) (new s)
      → Post
          (λ reply. IsPrepared caller group_id dir s)
          (IsPrepared caller group_id dir s)
          (answer_replay std r out found new s)
  answer_replay-IsPrepared dir caller group_id (some row) new s h = ok-Post (kept refl)
  answer_replay-IsPrepared dir caller group_id none new s h = h

  pub prepare_transaction-Post :
      (dir : Directory) (caller : Caller) (now : Circumstances) (group_id : Text)
      (req : PrepareTransactionRequest) (s : Plane std r)
      → Post
          (λ reply. IsPrepared caller group_id dir s)
          (IsPrepared caller group_id dir s)
          (prepare_transaction std r out dir caller now group_id req s)
  unfolding prepare_transaction
  prepare_transaction-Post dir caller now group_id req s =
      let idle : IsPrepared caller group_id dir s s = kept refl in
      guard-Post _ _ idle λ known. guard-Post _ _ idle λ named.
        attempt-Post _ _ idle λ unit complete. need-Post _ _ idle λ group found.
          guard-Post _ _ idle λ own. need-Post _ _ idle λ wallet held. guard-Post _ _ idle λ user.
            answer_replay-IsPrepared dir caller group_id
              (replay std r out caller now req s.transactions)
              (prepare_new std r out caller now group wallet req) s
              (prepare_new-IsPrepared dir caller now group_id group wallet req s
                (answered _ _ _ found) (text_eq→eq _ _ own))
