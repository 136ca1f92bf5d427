-- ===== src/Common/Table.antt =====
-- Tables as lists of rows: the first row of a selection, `UPDATE … SET … WHERE …`, and the laws of
-- a table whose rows have distinct keys (a PRIMARY KEY or a UNIQUE index).
use Prim.Native.Nat.{ℕ}
use mathlib.Core.Path.{◌≡◌, refl}
use mathlib.Core.Bool.{Bool, true, false, ◌||◌}
use mathlib.Core.Option.{Option, none, some}
use mathlib.Core.Logic.{inl, inr}
use mathlib.Core.List.{List, [], ◌∷◌, ◌++◌}
use native.Mathlib.Omega.{arith}
use commerce_core_api.Common.Tests.{◌==◌, if◌then◌else◌, Bool-cases, ==→eq, ==_refl}
use commerce_core_api.Common.Lists.{includes}

module _ {ℓ} {R : Type ℓ} where
  -- `rows[0] ?? null`
  abbrev pub find_by : (R → Bool) → List R → Option R
  find_by p [] = none
  find_by p (r ∷ t) = if p r then some r else find_by p t

  -- `UPDATE t SET f WHERE p`
  abbrev pub update : (R → Bool) → (R → R) → List R → List R
  update p f [] = []
  update p f (r ∷ t) = (if p r then f r else r) ∷ update p f t

  -- its `rowCount`, compared with 0
  abbrev pub matches : (R → Bool) → List R → Bool
  matches p [] = false
  matches p (r ∷ t) = p r || matches p t

  -- `SELECT … WHERE p`, and what `DELETE … WHERE p` removes
  abbrev pub select : (R → Bool) → List R → List R
  select p [] = []
  select p (r ∷ t) = if p r then r ∷ select p t else select p t

-- The first of two results, a test of one, and what an update does to one row.
module _ {ℓ} {R : Type ℓ} where
  abbrev pub or_else : Option R → Option R → Option R
  or_else none o = o
  or_else (some r) o = some r

  abbrev pub holds : (R → Bool) → Option R → Bool
  holds p none = false
  holds p (some r) = p r

  abbrev pub set_if : (R → Bool) → (R → R) → Option R → Option R
  set_if p f none = none
  set_if p f (some r) = some (if p r then f r else r)

module _ {ℓ} {R : Type ℓ} where
  pub set_if-some :
      (p : R → Bool) (f : R → R) (o : Option R) (r : R)
      → set_if p f o ≡ some r
      → (x : R) × (o ≡ some x) × ((if p x then f x else x) ≡ r)
  set_if-some p f none r e = cc
  set_if-some p f (some x) r e = (x, refl, ground arith)

  pub find_by-holds : (p : R → Bool) (t : List R) {r : R} → find_by p t ≡ some r → p r ≡ true
  find_by-holds p [] e = cc
  find_by-holds p (x ∷ t) e = elim (Bool-cases (p x)) [
    | inl h ↦ ground arith
    | inr h ↦ find_by-holds p t (ground arith)
  ]

  -- A selection that an update does not disturb finds the updated row.
  pub find_by-update :
      (p q : R → Bool) (f : R → R) (t : List R)
      → ((r : R) → p (f r) ≡ p r)
      → find_by p (update q f t) ≡ set_if q f (find_by p t)
  find_by-update p q f [] same = refl
  find_by-update p q f (x ∷ t) same = ground (arith, same x, find_by-update p q f t same)

  pub find_by-append :
      (p : R → Bool) (r : R) (t : List R)
      → find_by p (t ++ (r ∷ [])) ≡ or_else (find_by p t) (if p r then some r else none)
  find_by-append p r [] = refl
  find_by-append p r (x ∷ t) = ground (arith, find_by-append p r t)

  -- An assignment of constants may run twice.
  pub update-update :
      (q : R → Bool) (f : R → R) (t : List R)
      → ((r : R) → f (f r) ≡ f r)
      → update q f (update q f t) ≡ update q f t
  update-update q f [] same = refl
  update-update q f (x ∷ t) same = ground (arith, same x, update-update q f t same)

-- Rows with a numeric key, such as an `id`.
module _ {ℓ} {R : Type ℓ} (key : R → ℕ) where
  abbrev pub find : ℕ → List R → Option R
  find k = find_by (λ r. key r == k)

  -- No two rows have the same key.
  abbrev pub IsKeyed : List R → Type ℓ
  IsKeyed [] = Unit
  IsKeyed (r ∷ t) = (find (key r) t ≡ none) × IsKeyed t

  -- `SELECT id … WHERE p`
  abbrev pub keys : (R → Bool) → List R → List ℕ
  keys p [] = []
  keys p (r ∷ t) = if p r then key r ∷ keys p t else keys p t

  pub find-key : (k : ℕ) (t : List R) {r : R} → find k t ≡ some r → key r ≡ k
  find-key k [] e = cc
  find-key k (x ∷ t) {r} e = elim (Bool-cases (key x == k)) [
    | inl h ↦ ground (arith, ==→eq (key x) k)
    | inr h ↦ find-key k t (ground arith)
  ]

  -- Where an update keeps the keys, it is an update of the row that is found.
  pub find-update :
      (k : ℕ) (p : R → Bool) (f : R → R) (t : List R)
      → ((r : R) → key (f r) ≡ key r)
      → find k (update p f t) ≡ set_if p f (find k t)
  find-update k p f [] same = refl
  find-update k p f (x ∷ t) same = ground (arith, same x, find-update k p f t same)

  pub find-append :
      (k : ℕ) (r : R) (t : List R)
      → find k (t ++ (r ∷ [])) ≡ or_else (find k t) (if key r == k then some r else none)
  find-append k r [] = refl
  find-append k r (x ∷ t) = ground (arith, find-append k r t)

  pub update-IsKeyed :
      (p : R → Bool) (f : R → R) (t : List R)
      → ((r : R) → key (f r) ≡ key r)
      → IsKeyed t
      → IsKeyed (update p f t)
  update-IsKeyed p f [] same h = tt
  update-IsKeyed p f (x ∷ t) same h =
      let there : find (key x) (update p f t) ≡ none =
        rw (find-update (key x) p f t same, h.0) refl in
      elim (Bool-cases (p x)) [
        | inl e ↦ rw e (rw (same x) there, update-IsKeyed p f t same h.1)
        | inr e ↦ rw e (there, update-IsKeyed p f t same h.1)
      ]

  pub append-IsKeyed :
      (r : R) (t : List R) → find (key r) t ≡ none → IsKeyed t → IsKeyed (t ++ (r ∷ []))
  append-IsKeyed r [] e h = (refl, tt)
  append-IsKeyed r (x ∷ t) e h =
      (ground (arith, find-append (key x) r t, h.0), append-IsKeyed r t (ground arith) h.1)

  -- A row that any selection finds is the one under its key.
  pub find-find_by :
      (p : R → Bool) (t : List R) {r : R}
      → IsKeyed t
      → find_by p t ≡ some r
      → find (key r) t ≡ some r
  find-find_by p [] h e = cc
  find-find_by p (x ∷ t) {r} h e = elim (Bool-cases (p x)) [
    | inl c ↦ ground (arith, ==_refl (key x))
    | inr c ↦
        let e' : find_by p t ≡ some r = ground arith in
        ground (arith, find-find_by p t h.1 e', ==→eq (key x) (key r))
  ]

  -- A key is selected exactly when its row is.
  pub includes-keys :
      (k : ℕ) (p : R → Bool) (t : List R) → IsKeyed t → includes k (keys p t) ≡ holds p (find k t)
  includes-keys k p [] h = refl
  includes-keys k p (x ∷ t) h = ground (arith, includes-keys k p t h.1, ==→eq (key x) k, h.0)
