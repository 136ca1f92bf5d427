-- ===== src/Common/Error.antt =====
-- src/errors/app-error.ts: the errors that the services throw, and the transactions of
-- src/infra/db/transaction-manager.ts as state passing over the database.
use Prim.Native.Nat.{ℕ}
use Prim.Native.String.{String}
use mathlib.Core.Path.{◌≡◌, refl}
use mathlib.Core.Logic.{◌⊎◌, inl, inr}
use mathlib.Core.Bool.{Bool, true, false}
use mathlib.Core.Option.{Option, none, some}

-- `class AppError`, by the factory that made it, with the message where the factory takes one; those
-- that the modelled services call.
pub data AppError : Type 0 where
  bad_request : String → AppError
  not_found : String → AppError
  conflict : String → AppError
  unauthorized : String → AppError
  forbidden : String → AppError
  invalid_credentials : AppError
  refresh_token_expired : AppError
  refresh_token_reuse : AppError
  invalid_refresh_token : AppError
  session_revoked : AppError
  internal : AppError

-- `statusCode`
pub status_code : AppError → ℕ
status_code (bad_request m) = 400
status_code (not_found m) = 404
status_code (conflict m) = 409
status_code (unauthorized m) = 401
status_code (forbidden m) = 403
status_code invalid_credentials = 401
status_code refresh_token_expired = 401
status_code refresh_token_reuse = 401
status_code invalid_refresh_token = 401
status_code session_revoked = 401
status_code internal = 500

pub data Result {ℓ} (A : Type ℓ) : Type ℓ where
  ok : A → Result A
  err : AppError → Result A

-- Whether a result is no error.
abbrev pub is_committed {ℓ} : {A : Type ℓ} → Result A → Bool
is_committed (ok a) = true
is_committed (err e) = false

pub Result-cases {ℓ} :
    {A : Type ℓ} (r : Result A) → ((a : A) × (r ≡ ok a)) ⊎ ((e : AppError) × (r ≡ err e))
Result-cases (ok a) = inl (a, refl)
Result-cases (err e) = inr (e, refl)

-- The body of `tm.transaction`: a throw carries no state, since the transaction is rolled back.
abbrev pub Tx {ℓ} : Type ℓ → Type 0 → Type ℓ
Tx S A = S → Result (A × S)

module _ {ℓ} {S : Type ℓ} where
  abbrev pub pure : {A : Type 0} → A → Tx S A
  pure a s = ok (a, s)

  abbrev pub throw : {A : Type 0} → AppError → Tx S A
  throw e s = err e

  abbrev pub gets : {A : Type 0} → (S → A) → Tx S A
  gets f s = ok (f s, s)

  abbrev pub modify : (S → S) → Tx S (Unit {0})
  modify f s = ok (tt, f s)

  -- `if (c) throw e`
  abbrev pub throw_if : Bool → AppError → Tx S (Unit {0})
  throw_if true e s = err e
  throw_if false e s = ok (tt, s)

  -- `if (!row) throw e`, and the row afterwards
  abbrev pub or_throw : {A : Type 0} → Option A → AppError → Tx S A
  or_throw none e s = err e
  or_throw (some a) e s = ok (a, s)

  -- `if (c) { body }`
  abbrev pub when : Bool → Tx S (Unit {0}) → Tx S (Unit {0})
  when true m = m
  when false m = pure tt

  infixl 5 ◌>>=◌ ◌>>◌
  abbrev pub ◌>>=◌ : {A B : Type 0} → Tx S A → (A → Tx S B) → Tx S B
  ◌>>=◌ m f s = elim (m s) [ ok (a, s') ↦ f a s' | err e ↦ err e ]

  abbrev pub ◌>>◌ : {A B : Type 0} → Tx S A → Tx S B → Tx S B
  m >> k = m >>= λ _. k

  -- `knex.transaction(fn)`: the committed state, or the state before it.
  abbrev pub committed : {A : Type 0} → Tx S A → S → S
  committed m s = elim (m s) [ ok (a, s') ↦ s' | err e ↦ s ]

  -- What holds of the state if the transaction commits.
  abbrev pub Commits {κ} : {A : Type 0} → (S → Type κ) → Result (A × S) → Type κ
  Commits P (ok (a, s)) = P s
  Commits P (err e) = Unit

  -- What a chain of two steps establishes, from what the first one does.
  pub Commits-bind {κ ι} :
      {A B : Type 0} (P : S → Type κ) (Q : S → Type ι) (m : Tx S A) (f : A → Tx S B) (s : S)
      → Commits P (m s)
      → ((a : A) (s' : S) → m s ≡ ok (a, s') → P s' → Commits Q (f a s'))
      → Commits Q ((m >>= f) s)
  Commits-bind {A} P Q m f s p next = go (m s) refl p
    where
      go :
          (r : Result (A × S))
          → m s ≡ r
          → Commits P r
          → Commits Q (elim r [ ok (a, s') ↦ f a s' | err e ↦ err e ])
      go (ok (a, s')) e q = next a s' e q
      go (err x) e q = tt

  pub Commits-map {κ ι} :
      {A : Type 0} (P : S → Type κ) (Q : S → Type ι) (r : Result (A × S))
      → ((s : S) → P s → Q s)
      → Commits P r
      → Commits Q r
  Commits-map P Q (ok (a, s)) f p = f s p
  Commits-map P Q (err e) f p = tt

  -- After a step that changed nothing the rest runs as if alone.
  pub >>-ok :
      {A B : Type 0} (m : Tx S A) (k : Tx S B) (s s' : S) {a : A}
      → m s ≡ ok (a, s')
      → (m >> k) s ≡ k s'
  >>-ok m k s s' e = rw (e, ◌>>=◌)
