-- ===== src/Common/Steps.antt =====
-- A service that runs its statements outside a transaction, each one committing by itself: an error
-- leaves the writes of the earlier statements in place.
use mathlib.Core.Bool.{Bool, true, false}
use mathlib.Core.Option.{Option, none, some}
use commerce_core_api.Common.Error.{AppError, Result, ok, err, Tx}

abbrev pub Steps {ℓ} : Type ℓ → Type 0 → Type ℓ
Steps S A = S → Result A × S

-- What is answered, and the state afterwards.
abbrev pub answer {ℓ} : {S : Type ℓ} {A : Type 0} → Result A × S → Result A
answer r = r.0

abbrev pub after {ℓ} : {S : Type ℓ} {A : Type 0} → Result A × S → S
after r = r.1

module _ {ℓ} {S : Type ℓ} where
  abbrev pub done : {A : Type 0} → A → Steps S A
  done a s = (ok a, s)

  -- one statement
  abbrev pub statement : {A : Type 0} → Tx S A → Steps S A
  statement m s = elim (m s) [ ok (a, s') ↦ (ok a, s') | err e ↦ (err e, s) ]

  -- `if (c) throw e`
  abbrev pub fail_if : Bool → AppError → Steps S (Unit {0})
  fail_if true e s = (err e, s)
  fail_if false e s = (ok tt, s)

  -- `if (!row) throw e`, and the row afterwards
  abbrev pub or_fail : {A : Type 0} → Option A → AppError → Steps S A
  or_fail none e s = (err e, s)
  or_fail (some a) e s = (ok a, s)

  infixl 5 ◌>>=◌ ◌>>◌
  abbrev pub ◌>>=◌ : {A B : Type 0} → Steps S A → (A → Steps S B) → Steps S B
  ◌>>=◌ m f s = let (r, s') = m s in elim r [ ok a ↦ f a s' | err e ↦ (err e, s') ]

  abbrev pub ◌>>◌ : {A B : Type 0} → Steps S A → Steps S B → Steps S B
  m >> k = m >>= λ _. k
