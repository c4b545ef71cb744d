-- ===== src/Transfers/Safety.antt =====
-- What `SendTransaction` promises (internal/server/handlers/wallet_group_tx.go), with the limits
-- of internal/limits behind it.
use mathlib.Core.Path.{subst}
use atara_pay.Base.{
  ◌≡◌, refl, sym, ap, ◌∙◌, ◌⊎◌, inl, inr, true, some, Text, Result, ok, err, ok-injective,
}
use atara_pay.Http.{Caller, Failure, Reply}
use atara_pay.Http.Post.{Post}
use atara_pay.Limits.Calendar.{Time}
use atara_pay.Limits.Counter.{Redis, IsReliable}
use atara_pay.Limits.Policy.{Querier, LimitPolicy, CheckRequest, Std, resolve_policy, CheckError}
use atara_pay.Limits.Service.{World, CheckResult, check}
use atara_pay.Limits.Service.Accounting.{IsCharged, IsAccounted, check-IsAccounted}
use atara_pay.Limits.Service.Decision.{Grounds, check_sound}
use atara_pay.Transfers.{SendTransactionRequest, TransactionView}
use atara_pay.Transfers.Plane.{Outside, Directory, Parts, Circumstances, Plane}
use atara_pay.Transfers.Send.{Grant, check_request, send_transaction}
use atara_pay.Transfers.Settled.{
  IsMoved, IsSettled, IsAbandoned, IsCleared, unlimited, allowed, send_transaction-Post,
}

module _ (std : Std) (r : Redis) (out : Outside) (q : Querier) (dir : Directory)
    (parts : Parts) where
  abbrev pub answer_of :
      Caller
      → Circumstances
      → Text
      → SendTransactionRequest
      → Plane std r
      → Result Failure (Reply TransactionView) × Plane std r
  answer_of caller now group_id req s =
      send_transaction std r out q dir parts caller now group_id req s

  either :
      (caller : Caller) (now : Circumstances) (group_id : Text) (req : SendTransactionRequest)
      (s : Plane std r) (m : Result Failure (Reply TransactionView) × Plane std r)
      → Post
          (IsSettled std r out q dir parts caller now group_id req s)
          (IsAbandoned std r out q dir parts caller now group_id req s)
          m
      → (m.1.rail_calls ≡ s.rail_calls)
        ⊎ ((grant : Grant) × IsMoved std r out q dir parts caller now group_id req grant s m.1)
  either caller now group_id req s (ok a, s') h = inr (h.holds.grant, h.holds.moved)
  either caller now group_id req s (err e, s') h = h.holds.calls

  pub send_transaction_authorised :
      (caller : Caller) (now : Circumstances) (group_id : Text) (req : SendTransactionRequest)
      (s : Plane std r)
      → ((answer_of caller now group_id req s).1.rail_calls ≡ s.rail_calls)
        ⊎ ((grant : Grant) × IsMoved std r out q dir parts caller now group_id req grant s
              (answer_of caller now group_id req s).1)
  send_transaction_authorised caller now group_id req s =
      either caller now group_id req s (answer_of caller now group_id req s)
        (send_transaction-Post std r out q dir parts caller now group_id req s)

  pub data SettledOrAbandoned (caller : Caller) (now : Circumstances) (group_id : Text)
      (req : SendTransactionRequest) (s : Plane std r)
      : Result Failure (Reply TransactionView) × Plane std r → Type 0 where
    settled :
        (answer : Reply TransactionView) (s' : Plane std r)
        → IsSettled std r out q dir parts caller now group_id req s answer s'
        → SettledOrAbandoned caller now group_id req s (ok answer, s')
    abandoned :
        (e : Failure) (s' : Plane std r)
        → s'.transactions ≡ s.transactions
        → SettledOrAbandoned caller now group_id req s (err e, s')

  settled_or_abandoned :
      (caller : Caller) (now : Circumstances) (group_id : Text) (req : SendTransactionRequest)
      (s : Plane std r) (m : Result Failure (Reply TransactionView) × Plane std r)
      → Post
          (IsSettled std r out q dir parts caller now group_id req s)
          (IsAbandoned std r out q dir parts caller now group_id req s)
          m
      → SettledOrAbandoned caller now group_id req s m
  settled_or_abandoned caller now group_id req s (ok a, s') h = settled a s' h.holds
  settled_or_abandoned caller now group_id req s (err e, s') h = abandoned e s' h.holds.ledger

  -- A transfer that is answered 201 has moved money exactly once and put exactly one row in the
  -- ledger, with the request's recipient, amount and asset, the caller, wallet and session key, and
  -- the status, hash and id that the rail has answered to that call, which the answer shows; one
  -- that fails leaves the ledger as it was.
  pub send_transaction-SettledOrAbandoned :
      (caller : Caller) (now : Circumstances) (group_id : Text) (req : SendTransactionRequest)
      (s : Plane std r)
      → SettledOrAbandoned caller now group_id req s (answer_of caller now group_id req s)
  send_transaction-SettledOrAbandoned caller now group_id req s =
      settled_or_abandoned caller now group_id req s (answer_of caller now group_id req s)
        (send_transaction-Post std r out q dir parts caller now group_id req s)

module _ (std : Std) (r : Redis) (reliable : IsReliable r) (out : Outside) (q : Querier)
    (dir : Directory) (parts : Parts) where
  -- What a check that allows a request has charged.
  charged_by :
      (pol : LimitPolicy) (req : CheckRequest) (t : Time) (w : World std r)
      (m : Result CheckError CheckResult × World std r) (result : CheckResult)
      → parts.wiring.redis_wired ≡ true
      → IsAccounted std r reliable parts.wiring pol req t w m
      → m.0 ≡ ok result
      → result.allowed ≡ true
      → IsCharged std r reliable pol req t w m.1
  charged_by pol req t w (ok a, w') result redis h e yes_allowed =
      h.1 (ap (λ x. x.allowed) (ok-injective a result e) ∙ yes_allowed) redis
  charged_by pol req t w (err x, w') result redis h e yes_allowed = absurd (cc)

  -- The limit gate was passed for good reason, on the tenant, the wallet, the session key, the
  -- amount, the asset and the recipient of the transfer, and the amount is on the counters.
  pub record IsWithinLimits (now : Circumstances) (tenant : Text) (grant : Grant)
      (req : SendTransactionRequest) (w w' : World std r) : Type 0 where
    pub checked : CheckRequest
    pub tenant_checked : checked.tenant_id ≡ tenant
    pub wallet_checked : checked.wallet_id ≡ grant.wallet.id
    pub key_checked : checked.session_key_id ≡ grant.signer_id
    pub amount_checked : checked.amount ≡ req.amount
    pub asset_checked : checked.asset ≡ req.asset
    pub recipient_checked : checked.recipient ≡ req.to
    pub grounds : Grounds std r q checked now.check_clock
    pub charged :
        (pol : LimitPolicy)
        → resolve_policy q checked ≡ some pol
        → pol.enabled ≡ true
        → IsCharged std r reliable pol checked now.check_clock.at_periods w w'

  cleared-IsWithinLimits :
      (now : Circumstances) (tenant : Text) (grant : Grant) (req : SendTransactionRequest)
      (w w' : World std r)
      → parts.limits_wired ≡ true
      → parts.wiring.redis_wired ≡ true
      → IsCleared std r out q dir parts tenant now grant req w w'
      → IsWithinLimits now tenant grant req w w'
  unfolding check_request
  cleared-IsWithinLimits now tenant grant req w w' wired redis (unlimited off same) = absurd (cc)
  cleared-IsWithinLimits now tenant grant req w w' wired redis
        (allowed result wired' found passed left) =
      let request = check_request tenant grant req in
      record {
        checked = request;
        tenant_checked = refl;
        wallet_checked = refl;
        key_checked = refl;
        amount_checked = refl;
        asset_checked = refl;
        recipient_checked = refl;
        grounds = check_sound std r q parts.wiring request now.check_clock w result found passed;
        charged = λ pol governed on.
            subst (λ v. IsCharged std r reliable pol request now.check_clock.at_periods w v)
              (sym left)
              (charged_by pol request now.check_clock.at_periods w
                (check std r q parts.wiring request now.check_clock w) result redis
                (check-IsAccounted std r reliable q parts.wiring request now.check_clock w pol
                  governed on)
                found passed);
      }

  -- With the limits and Redis wired, whatever the answer of a transfer: no call that moves money
  -- has been made, or one has, from an active wallet under platform custody in a group of the
  -- caller's tenant, signed for by no session key or by an active one of that wallet; and then, for
  -- that tenant, wallet, session key, amount, asset and recipient, no enabled policy governs the transfer, or the policy that does has
  -- not expired and its per-transaction cap and recipient lists let it through; and the amount
  -- has been added to the counter of each period that an enabled policy caps, to no other, and each
  -- of those counters is at most its cap.
  pub send_transaction-IsWithinLimits :
      (caller : Caller) (now : Circumstances) (group_id : Text) (req : SendTransactionRequest)
      (s : Plane std r)
      → parts.limits_wired ≡ true
      → parts.wiring.redis_wired ≡ true
      → ((answer_of std r out q dir parts caller now group_id req s).1.rail_calls ≡ s.rail_calls)
        ⊎ ((grant : Grant) × IsMoved std r out q dir parts caller now group_id req grant s
              (answer_of std r out q dir parts caller now group_id req s).1
            × IsWithinLimits now caller.tenant_id grant req s.world
                (answer_of std r out q dir parts caller now group_id req s).1.world)
  send_transaction-IsWithinLimits caller now group_id req s wired redis =
      elim (send_transaction_authorised std r out q dir parts caller now group_id req s) [
        | inl idle ↦ inl idle
        | inr (grant, moved) ↦ inr (
          grant,
          moved,
          cleared-IsWithinLimits now caller.tenant_id grant req s.world _ wired redis moved.cleared,
        )
      ]
