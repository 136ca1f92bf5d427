-- ===== src/Common/Count.antt =====
-- `COUNT(*)` of a selection.
use Prim.Native.Nat.{ℕ, ◌+◌, ◌≤◌}
use mathlib.Core.Path.{◌≡◌, refl}
use mathlib.Core.Bool.{Bool, true, false, not, ◌&&◌}
use mathlib.Core.Option.{none, some}
use mathlib.Core.List.{List, [], ◌∷◌, ◌++◌}
use mathlib.Core.Logic.{inl, inr}
use native.Mathlib.Omega.{arith}
use commerce_core_api.Common.Tests.{◌==◌, if◌then◌else◌, ==→eq, Bool-cases}
use commerce_core_api.Common.Table.{find_by, find, update, select, IsKeyed}

module _ {ℓ} {R : Type ℓ} where
  abbrev pub count : (R → Bool) → List R → ℕ
  count p [] = 0
  count p (r ∷ t) = (if p r then 1 else 0) + count p t

  -- An update, where the rows that it leaves are counted by another test of the rows before it.
  pub count-update :
      (p p' q : R → Bool) (f : R → R) (t : List R)
      → ((r : R) → p (if q r then f r else r) ≡ p' r)
      → count p (update q f t) ≡ count p' t
  count-update p p' q f [] same = refl
  count-update p p' q f (r ∷ t) same = ground (arith, same r, count-update p p' q f t same)

  pub count-select :
      (p q : R → Bool) (t : List R) → count p (select q t) ≡ count (λ r. q r && p r) t
  count-select p q [] = refl
  count-select p q (r ∷ t) = ground (arith, count-select p q t)

  pub count-append :
      (p : R → Bool) (r : R) (t : List R)
      → count p (t ++ (r ∷ [])) ≡ count p t + (if p r then 1 else 0)
  count-append p r [] = ground arith
  count-append p r (x ∷ t) = ground (arith, count-append p r t)

  pub count-same : (p q : R → Bool) (t : List R) → ((r : R) → p r ≡ q r) → count p t ≡ count q t
  count-same p q [] same = refl
  count-same p q (r ∷ t) same = ground (arith, same r, count-same p q t same)

  pub count_mono :
      (p q : R → Bool) (t : List R) → ((r : R) → p r ≡ true → q r ≡ true) → count p t ≤ count q t
  count_mono p q [] imp = omega arith
  count_mono p q (r ∷ t) imp = elim (Bool-cases (p r)) [
    | inl e ↦ ground (arith, imp r e, count_mono p q t imp)
    | inr e ↦ ground (arith, count_mono p q t imp)
  ]

  pub count-split :
      (p q : R → Bool) (t : List R)
      → count p t ≡ count (λ r. q r && p r) t + count (λ r. not (q r) && p r) t
  count-split p q [] = refl
  count-split p q (r ∷ t) = ground (arith, count-split p q t)

  pub count-none : (p : R → Bool) (t : List R) → find_by p t ≡ none → count p t ≡ 0
  count-none p [] e = refl
  count-none p (r ∷ t) e = ground (arith, count-none p t)

  pub count-found :
      (p q : R → Bool) (t : List R) (r : R)
      → ((x : R) → q x ≡ true → p x ≡ true)
      → find_by q t ≡ some r
      → 1 ≤ count p t
  count-found p q [] r imp e = cc
  count-found p q (x ∷ t) r imp e = elim (Bool-cases (q x)) [
    | inl c ↦ ground (arith, imp x c)
    | inr c ↦ let there = count-found p q t r imp (ground arith) in ground (arith, there)
  ]

  pub count-false : (t : List R) → count (λ r. false) t ≡ 0
  count-false [] = refl
  count-false (r ∷ t) = ground (arith, count-false t)

-- Of a table whose rows have distinct keys, at most one row has a given key.
module _ {ℓ} {R : Type ℓ} (key : R → ℕ) where
  pub count-absent :
      (k : ℕ) (p : R → Bool) (t : List R)
      → find key k t ≡ none
      → count (λ r. key r == k && p r) t ≡ 0
  count-absent k p [] e = refl
  count-absent k p (r ∷ t) e = ground (arith, count-absent k p t)

  pub count-key :
      (k : ℕ) (p : R → Bool) (t : List R) (r : R)
      → IsKeyed key t
      → find key k t ≡ some r
      → count (λ r. key r == k && p r) t ≡ (if p r then 1 else 0)
  count-key k p [] r h e = cc
  count-key k p (x ∷ t) r h e = elim (Bool-cases (key x == k)) [
    | inl c ↦ ground (arith, count-absent k p t, ==→eq (key x) k, h.0)
    | inr c ↦ ground (arith, count-key k p t r h.1)
  ]
