-- ===== src/Common/Batch.antt =====
-- `ORDER BY … LIMIT n` of a selection: which keys it holds.
use commerce_core_api.Common.Tests.{◌==◌, Bool-cases, ==→eq, ==_refl}
use commerce_core_api.Common.Lists.{All, take, includes, length}
use commerce_core_api.Common.Table.{find, select}
use commerce_core_api.Common.Sort.{sort_by, insert_by, IsSelected}
use Prim.Native.Nat.{ℕ, zero, suc, ◌<◌}
use mathlib.Core.Path.{◌≡◌, refl, ap, ◌∙◌}
use mathlib.Core.Bool.{Bool, true, false, ◌||◌}
use mathlib.Core.Logic.{inl, inr}
use mathlib.Core.Option.{some}
use mathlib.Core.List.{List, [], ◌∷◌, map}
use native.Mathlib.Omega.{arith}

-- A limit that is not reached cuts nothing.
pub take_all : {R : Type 0} (n : ℕ) (t : List R) → length (take n t) < n → take n t ≡ t
take_all zero t h = absurd (omega arith)
take_all (suc n) [] h = refl
take_all (suc n) (x ∷ t) h = ap (λ l. x ∷ l) (take_all n t (omega arith))

-- A list that holds a key is not empty.
pub includes-length :
    {R : Type 0} (key : R → ℕ) (k : ℕ) (t : List R)
    → includes k (map key t) ≡ true
    → (length t == 0) ≡ false
includes-length key k [] h = cc
includes-length key k (x ∷ t) h = ground arith

module _ {R : Type 0} (key : R → ℕ) (p : R → Bool) where
  -- A key among the keys of selected rows is that of a row that meets `p`.
  pub includes-found :
      (k : ℕ) (t l : List R)
      → All (IsSelected key p t) l
      → includes k (map key l) ≡ true
      → (r : R) × (find key k t ≡ some r) × (p r ≡ true)
  includes-found k t [] a h = cc
  includes-found k t (x ∷ l) a h = elim (Bool-cases (k == key x)) [
    | inl c ↦ (x, ground (arith, ==→eq k (key x), a.0), a.0.1)
    | inr c ↦ includes-found k t l a.1 (ground arith)
  ]

  -- The key of a row that meets `p` is selected.
  pub includes-select :
      (k : ℕ) (t : List R) (r : R)
      → find key k t ≡ some r
      → p r ≡ true
      → includes k (map key (select p t)) ≡ true
  includes-select k [] r e h = cc
  includes-select k (x ∷ t) r e h = elim (Bool-cases (key x == k)) [
    | inl c ↦ ground (arith, ==→eq (key x) k, ==_refl k)
    | inr c ↦ ground (arith, includes-select k t r)
  ]

module _ {R : Type 0} (key : R → ℕ) (before : R → R → Bool) where
  includes-insert_by :
      (k : ℕ) (r : R) (t : List R)
      → includes k (map key (insert_by before r t)) ≡ (k == key r || includes k (map key t))
  unfolding insert_by
  includes-insert_by k r [] = refl
  includes-insert_by k r (x ∷ t) = ground (arith, includes-insert_by k r t)

  -- Sorting keeps the keys.
  pub includes-sort_by :
      (k : ℕ) (t : List R) → includes k (map key (sort_by before t)) ≡ includes k (map key t)
  unfolding sort_by
  includes-sort_by k [] = refl
  includes-sort_by k (r ∷ t) =
      includes-insert_by k r (sort_by before t) ∙ ap (λ b. k == key r || b) (includes-sort_by k t)
