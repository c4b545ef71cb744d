-- ===== src/Policies/Violations/Denials.antt =====
-- A denial of the limit check is what `ListViolations` shows first
-- (internal/limits/service.go, internal/server/handlers/limits.go).
use atara_pay.Base.{
  ℕ, suc, zero, ◌≡◌, refl, ap, ◌∙◌, inl, inr, true, false, ◌&&◌, Bool-cases, some, List, [], ◌∷◌,
  ◌++◌, map, Text, text_eq, text_eq_refl, is_nil, take, ltb, leb, Result, ok, err, ok-injective,
}
use atara_pay.Base.Int.{ℤ, pos, negsuc}
use atara_pay.Http.{Caller, and_then, guard, page_limit}
use atara_pay.Limits.Counter.{Redis}
use atara_pay.Limits.Policy.{Querier, CheckRequest, Std, CheckError, ViolationType}
use atara_pay.Limits.Service.{
  World, Wiring, Clock, CheckResult, Violation, Effect, create_limit_violation, emit_limit_exceeded,
  check,
}
use mathlib.Core.Path.{subst}
use atara_pay.Limits.Service.Recording.{denial, RecordedAs, Recorded, check-Recorded}
use atara_pay.Transfers.Rows.{pgx_text}
use atara_pay.Policies.Violations.{
  LimitViolation, ViolationView, text_of, to_violation_view, violation_row, violations_after,
  violations_of_tenant, list_violations,
}

-- A denial adds its row in front.
denial_row :
    (std : Std) (r : Redis) (wiring : Wiring) (req : CheckRequest) (policy : Text)
    (type : ViolationType) (id : ℕ) (effects : List Effect) (rows : List LimitViolation)
    → (n : ℕ) × (violations_after id (effects ++ denial std r wiring req policy type) rows
        ≡ violation_row n req policy type ∷ violations_after id effects rows)
unfolding violations_after
denial_row std r wiring req policy type id [] rows = elim (Bool-cases wiring.emitter_wired) [
  | inl e ↦ (id, rw e refl)
  | inr e ↦ (id, rw e refl)
]
denial_row std r wiring req policy type id (create_limit_violation asked p t ∷ effects) rows =
    denial_row std r wiring req policy type (suc id) effects (violation_row id asked p t ∷ rows)
denial_row std r wiring req policy type id (emit_limit_exceeded asked p t ∷ effects) rows =
    denial_row std r wiring req policy type id effects rows

page_shows_one : (limit : ℤ) → (n : ℕ) × (page_limit limit ≡ suc n)
page_shows_one (negsuc k) = (49, refl)
page_shows_one (pos zero) = (49, refl)
page_shows_one (pos (suc k)) = elim (Bool-cases (ltb 0 (suc k) && leb (suc k) 200)) [
  | inl e ↦ (k, rw e refl)
  | inr e ↦ (49, rw e refl)
]

text_kept : (s : Text) → text_of (pgx_text s) ≡ s
text_kept [] = refl
text_kept (c ∷ s) = refl

-- The list of a tenant whose newest violation this is.
list_front :
    (caller : Caller) (limit : ℤ) (v : LimitViolation) (rows : List LimitViolation)
    → is_nil caller.tenant_id ≡ false
    → text_eq v.tenant_id caller.tenant_id ≡ true
    → (rest : List ViolationView) × ((list_violations caller false limit (pos 0) (v ∷ rows)).0
        ≡ ok (record { status = 200; body = to_violation_view v ∷ rest }))
unfolding list_violations violations_of_tenant and_then guard
list_front caller limit v rows known own =
    let (n, size) = page_shows_one limit in
    (
      map to_violation_view (take n (violations_of_tenant caller.tenant_id rows)),
      rw known (rw own (rw size refl)),
    )

module _ (std : Std) (r : Redis) where
  written :
      (wiring : Wiring) (req : CheckRequest) (before : List Effect) (result : CheckResult)
      (v : Violation) (m : Result CheckError CheckResult × World std r)
      → Recorded std r wiring req before m
      → m.0 ≡ ok result
      → result.violation ≡ some v
      → m.1.effects ≡ before ++ denial std r wiring req result.policy_id v.type
  written wiring req before result v (err e, w) h done denied = absurd (cc)
  written wiring req before result v (ok found, w) h done denied =
      let same = ok-injective found result done in
      ((subst (λ o. RecordedAs std r wiring req found before w.effects o)
        (ap (λ f. f.violation) same ∙ denied) h).1)
      ∙ ap (λ f. before ++ denial std r wiring req f.policy_id v.type) same

  -- A request that Check denies is, where the database takes its audit row, the first violation
  -- that its tenant lists afterwards, whatever the limit of the page: with the type of the
  -- violation, the policy, the wallet, the session key, the asset and the recipient, but without
  -- the amount.
  pub denial_is_listed :
      (q : Querier) (wiring : Wiring) (req : CheckRequest) (clock : Clock) (w : World std r)
      (result : CheckResult) (v : Violation) (caller : Caller) (limit : ℤ) (next : ℕ)
      (rows : List LimitViolation)
      → (check std r q wiring req clock w).0 ≡ ok result
      → result.violation ≡ some v
      → caller.tenant_id ≡ req.tenant_id
      → is_nil caller.tenant_id ≡ false
      → (view : ViolationView) × (rest : List ViolationView) × ((list_violations caller false limit
            (pos 0)
            (violations_after next (check std r q wiring req clock w).1.effects rows)).0
          ≡ ok (record { status = 200; body = view ∷ rest }))
        × (view.type ≡ v.type)
        × (view.policy_id ≡ result.policy_id)
        × (view.wallet_id ≡ req.wallet_id)
        × (view.session_key_id ≡ req.session_key_id)
        × (view.attempted_asset ≡ req.asset)
        × (view.attempted_recipient ≡ req.recipient)
        × (view.attempted_amount ≡ [])
  unfolding to_violation_view violation_row
  denial_is_listed q wiring req clock w result v caller limit next rows done denied own known =
      let (n, added) = denial_row std r wiring req result.policy_id v.type next w.effects rows in
      let front =
        ap (λ effects. violations_after next effects rows)
          (written wiring req w.effects result v (check std r q wiring req clock w)
            (check-Recorded std r q wiring req clock w) done denied)
        ∙ added in
      let (rest, listed) =
        list_front caller limit (violation_row n req result.policy_id v.type)
          (violations_after next w.effects rows) known
          (ap (text_eq req.tenant_id) own ∙ text_eq_refl req.tenant_id) in
      (
        to_violation_view (violation_row n req result.policy_id v.type),
        rest,
        ap (λ table. (list_violations caller false limit (pos 0) table).0) front ∙ listed,
        refl,
        text_kept result.policy_id,
        text_kept req.wallet_id,
        text_kept req.session_key_id,
        text_kept req.asset,
        text_kept req.recipient,
        refl,
      )
