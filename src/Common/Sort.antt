-- ===== src/Common/Sort.antt =====
-- `ORDER BY` and `LIMIT`: an insertion sort by the test that one row goes before another, and what a
-- sorted and limited selection still satisfies.
use commerce_core_api.Common.Tests.{◌==◌, if◌then◌else◌, Bool-cases, ==→eq, ==_refl}
use commerce_core_api.Common.Lists.{All, take, includes}
use commerce_core_api.Common.Table.{find, select, IsKeyed}
use Prim.Native.Nat.{ℕ, zero, suc}
use mathlib.Core.Path.{◌≡◌}
use mathlib.Core.Bool.{Bool, true}
use mathlib.Core.Logic.{inl, inr}
use mathlib.Core.Option.{none, some}
use mathlib.Core.List.{List, [], ◌∷◌, map}
use native.Mathlib.Omega.{arith}

module _ {ℓ} {R : Type ℓ} (before : R → R → Bool) where
  unfoldable pub insert_by : R → List R → List R
  insert_by r [] = r ∷ []
  insert_by r (x ∷ t) = if before x r then x ∷ insert_by r t else r ∷ x ∷ t

  unfoldable pub sort_by : List R → List R
  unfolding insert_by
  sort_by [] = []
  sort_by (r ∷ t) = insert_by r (sort_by t)

-- Sorting and limiting keep what holds of every row.
module _ {R : Type 0} (P : R → Type 0) where
  All-insert_by :
      (before : R → R → Bool) (r : R) (t : List R) → P r → All P t → All P (insert_by before r t)
  unfolding insert_by
  All-insert_by before r [] p a = (p, tt)
  All-insert_by before r (x ∷ t) p a = elim (Bool-cases (before x r)) [
    | inl c ↦ rw c (a.0, All-insert_by before r t p a.1)
    | inr c ↦ rw c (p, a)
  ]

  pub All-sort_by : (before : R → R → Bool) (t : List R) → All P t → All P (sort_by before t)
  unfolding sort_by
  All-sort_by before [] a = tt
  All-sort_by before (r ∷ t) a =
      All-insert_by before r (sort_by before t) a.0 (All-sort_by before t a.1)

  pub All-take : (n : ℕ) (t : List R) → All P t → All P (take n t)
  All-take zero t a = tt
  All-take (suc n) [] a = tt
  All-take (suc n) (x ∷ t) a = (a.0, All-take n t a.1)

module _ {R : Type 0} (key : R → ℕ) (p : R → Bool) where
  -- A row of the table `t` that meets `p`.
  abbrev pub IsSelected : List R → R → Type 0
  IsSelected t r = (find key (key r) t ≡ some r) × (p r ≡ true)

  weaken :
      (x : R) (t l : List R)
      → find key (key x) t ≡ none
      → All (IsSelected t) l
      → All (IsSelected (x ∷ t)) l
  weaken x t [] fresh a = tt
  weaken x t (r ∷ l) fresh a = (ground (arith, ==→eq (key x) (key r), a.0), weaken x t l fresh a.1)

  pub All-select : (t : List R) → IsKeyed key t → All (IsSelected t) (select p t)
  All-select [] h = tt
  All-select (x ∷ t) h =
      let rest = weaken x t (select p t) h.0 (All-select t h.1) in
      elim (Bool-cases (p x)) [
        | inl c ↦ rw c ((ground (arith, ==_refl (key x)), c), rest)
        | inr c ↦ rw c rest
      ]

  -- A row whose key is among the keys of selected rows is itself selected.
  pub includes-IsSelected :
      (k : ℕ) (t l : List R) {r : R}
      → All (IsSelected t) l
      → includes k (map key l) ≡ true
      → find key k t ≡ some r
      → p r ≡ true
  includes-IsSelected k t [] a h e = cc
  includes-IsSelected k t (x ∷ l) {r} a h e = elim (Bool-cases (k == key x)) [
    | inl c ↦ ground (arith, ==→eq k (key x), a.0)
    | inr c ↦ includes-IsSelected k t l a.1 (ground arith) e
  ]
