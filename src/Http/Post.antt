-- ===== src/Http/Post.antt =====
-- Reasoning about handlers: what holds of an outcome, step by step.
use mathlib.Core.Path.{subst}
use atara_pay.Base.{
  ◌≡◌, refl, sym, Bool, true, false, Option, none, some, Result, ok, err, ok-injective,
}
use atara_pay.Http.{Failure, Handler, and_then, guard, need, attempt, get_state}

abbrev pub Outcome :
    {S A : Type 0} → (A → S → Type 0) → (S → Type 0) → Result Failure A × S → Type 0
Outcome P Q (ok a, s) = P a s
Outcome P Q (err e, s) = Q s

-- An outcome: a success with `P` of its value and state, or a failure with `Q` of its state.
pub record Post {S A : Type 0} (P : A → S → Type 0) (Q : S → Type 0) (m : Result Failure A × S)
    : Type 0 where
  pub holds : Outcome P Q m

module _ {S B : Type 0} {P : B → S → Type 0} {Q : S → Type 0} where
  pub ok-Post : {a : B} {s : S} → P a s → Post P Q (ok a, s)
  ok-Post h = record { holds = h }

  pub err-Post : {e : Failure} {s : S} → Q s → Post P Q (err e, s)
  err-Post h = record { holds = h }

  -- What holds of an outcome, read off a success.
  pub Post-ok : {a : B} {m : Result Failure B × S} → Post P Q m → m.0 ≡ ok a → P a m.1
  Post-ok {a = a} {m = (ok b, s)} h e = subst (λ x. P x s) (ok-injective b a e) h.holds
  Post-ok {m = (err f, s)} h e = absurd (cc)

  pub guard-Post :
      {b : Bool} (e : Failure) (k : Handler S B) {s : S}
      → Q s
      → (b ≡ true → Post P Q (k s))
      → Post P Q (and_then (λ unit. k) (guard b e s))
  unfolding and_then guard
  guard-Post {b = true} e k q h = h refl
  guard-Post {b = false} e k q h = record { holds = q }

module _ {S A B : Type 0} {P : B → S → Type 0} {Q : S → Type 0} where
  pub need-Post :
      {o : Option A} (e : Failure) (k : A → Handler S B) {s : S}
      → Q s
      → ((a : A) → o ≡ some a → Post P Q (k a s))
      → Post P Q (and_then k (need o e s))
  unfolding and_then need
  need-Post {o = some a} e k q h = h a refl
  need-Post {o = none} e k q h = record { holds = q }

  -- One handler after another: what the first establishes, the second starts from.
  pub bind-Post :
      {R : A → S → Type 0} {m : Result Failure A × S} (k : A → Handler S B)
      → Post R Q m
      → ((a : A) (s : S) → R a s → Post P Q (k a s))
      → Post P Q (and_then k m)
  unfolding and_then
  bind-Post {m = (ok a, s)} k r h = h a s r.holds
  bind-Post {m = (err e, s)} k r h = record { holds = r.holds }

module _ {S E A B : Type 0} {P : B → S → Type 0} {Q : S → Type 0} where
  pub attempt-Post :
      {m : Result E A} (f : E → Failure) (k : A → Handler S B) {s : S}
      → Q s
      → ((a : A) → m ≡ ok a → Post P Q (k a s))
      → Post P Q (and_then k (attempt m f s))
  unfolding and_then attempt
  attempt-Post {m = ok a} f k q h = h a refl
  attempt-Post {m = err e} f k q h = record { holds = q }

  -- A result that is known.
  pub given-Post :
      {m : Result E A} (f : E → Failure) (k : A → Handler S B) {s : S} (a : A)
      → m ≡ ok a
      → Post P Q (k a s)
      → Post P Q (and_then k (attempt m f s))
  unfolding and_then attempt
  given-Post {m = ok b} f k {s} a e h = subst (λ x. Post P Q (k x s)) (ok-injective a b (sym e)) h
  given-Post {m = err b} f k a e h = absurd (cc)

-- A result as the last step.
pub result-Post :
    {S E A : Type 0} {P : A → S → Type 0} {Q : S → Type 0} (m : Result E A) (f : E → Failure)
    (s : S)
    → Q s
    → ((a : A) → m ≡ ok a → P a s)
    → Post P Q (attempt m f s)
unfolding attempt
result-Post (ok a) f s q h = record { holds = h a refl }
result-Post (err e) f s q h = record { holds = q }

-- A weaker claim on the outcome.
pub Post-weaken :
    {S A : Type 0} {P P' : A → S → Type 0} {Q Q' : S → Type 0} {m : Result Failure A × S}
    → Post P Q m
    → ((a : A) (s : S) → P a s → P' a s)
    → ((s : S) → Q s → Q' s)
    → Post P' Q' m
Post-weaken {m = (ok a, s)} h p q = record { holds = p a s h.holds }
Post-weaken {m = (err e, s)} h p q = record { holds = q s h.holds }

-- A query as the last step.
pub last-need-Post :
    {S A : Type 0} {P : A → S → Type 0} {Q : S → Type 0} {o : Option A} (e : Failure) (s : S)
    → Q s
    → ((a : A) → o ≡ some a → P a s)
    → Post P Q (need o e s)
unfolding need
last-need-Post {o = some a} e s q h = record { holds = h a refl }
last-need-Post {o = none} e s q h = record { holds = q }

-- What holds of the state either way.
pub Post-state :
    {S A : Type 0} {Q : S → Type 0} {m : Result Failure A × S} → Post (λ a. Q) Q m → Q m.1
Post-state {m = (ok a, s)} h = h.holds
Post-state {m = (err e, s)} h = h.holds

-- A handler that goes on with the state.
pub state-Post :
    {S B : Type 0} {P : B → S → Type 0} {Q : S → Type 0} (k : S → Handler S B) {s : S}
    → Post P Q (k s s)
    → Post P Q (and_then k (get_state s))
unfolding and_then
state-Post k h = h

-- A handler that cannot succeed fails.
pub Post-err :
    {S A : Type 0} {P : A → S → Type 0} {Q : S → Type 0} {m : Result Failure A × S}
    → Post P Q m
    → ((a : A) (s : S) → P a s → ⊥)
    → (e : Failure) × (s : S) × (m ≡ (err e, s)) × Q s
Post-err {m = (ok a, s)} h never = absurd (never a s h.holds)
Post-err {m = (err e, s)} h never = (e, s, refl, h.holds)
