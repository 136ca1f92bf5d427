-- ===== src/Category/Slugs.antt =====
-- The loop of `generateUniqueCategorySlug` of src/modules/admin/category/category.slug.ts.
use commerce_core_api.Common.{
  ℕ, zero, suc, ◌+◌, ◌≤◌, ◌<◌, ◌≡◌, refl, Bool, true, false, Option, none, some, List, [], ◌∷◌,
  ◌++◌, length, Text, text_eq, text_eq→eq, codes, arith, if◌then◌else◌, Bool-cases, Option-cases,
  is_some, inl, inr,
}
use commerce_core_api.Common.Table.{matches}
use commerce_core_api.Category.{
  CategoryRow, has_slug, numbered, search_slug, generate_unique_category_slug,
}

-- Without the first row that passes.
abbrev drop_first : (CategoryRow → Bool) → List CategoryRow → List CategoryRow
drop_first p [] = []
drop_first p (r ∷ t) = let rest = drop_first p t in if p r then t else r ∷ rest

length-drop_first :
    (p : CategoryRow → Bool) (t : List CategoryRow)
    → matches p t ≡ true
    → suc (length (drop_first p t)) ≡ length t
length-drop_first p [] h = cc
length-drop_first p (r ∷ t) h = ground (arith, length-drop_first p t)

matches-drop_first :
    (p q : CategoryRow → Bool) (t : List CategoryRow)
    → ((r : CategoryRow) → p r ≡ true → q r ≡ false)
    → matches q (drop_first p t) ≡ matches q t
matches-drop_first p q [] apart = refl
matches-drop_first p q (r ∷ t) apart = elim (Bool-cases (p r)) [
  | inl e ↦ ground (arith, apart r e)
  | inr e ↦ ground (arith, matches-drop_first p q t apart)
]

append-injective : (s a b : Text) → s ++ a ≡ s ++ b → a ≡ b
append-injective [] a b e = e
append-injective (x ∷ s) a b e = let f : s ++ a ≡ s ++ b = cc in append-injective s a b f

append-longer : (s a : Text) → length (s ++ a) ≡ length s + length a
append-longer [] a = omega arith
append-longer (x ∷ s) a = omega (arith, append-longer s a)

module _ (string_of : ℕ → Text) (parent_id exclude_id : Option ℕ) (base : Text)
    (injective : (i j : ℕ) → string_of i ≡ string_of j → i ≡ j) where
  abbrev is_slug : Text → CategoryRow → Bool
  is_slug = has_slug parent_id exclude_id

  -- None of the numbered slugs from a counter on is the slug.
  abbrev IsApart : Text → ℕ → Type 0
  IsApart slug counter = (k : ℕ) → counter ≤ k → text_eq slug (numbered string_of base k) ≡ false

  base-IsApart : IsApart base 2
  base-IsApart k h = elim (Bool-cases (text_eq base (numbered string_of base k))) [
    | inr e ↦ e
    | inl e ↦
        let same = text_eq→eq base (numbered string_of base k) e in
        let longer : length base ≡ length (numbered string_of base k) = cc in
        ground (arith, longer, append-longer base (codes "-" ++ string_of k))
  ]

  numbered-IsApart : (counter : ℕ) → IsApart (numbered string_of base counter) (suc counter)
  numbered-IsApart counter k h =
      elim (Bool-cases (text_eq (numbered string_of base counter) (numbered string_of base k))) [
        | inr e ↦ e
        | inl e ↦
            let same = text_eq→eq (numbered string_of base counter) (numbered string_of base k) e in
            let tails =
              append-injective base (codes "-" ++ string_of counter) (codes "-" ++ string_of k)
                same in
            let digits : string_of counter ≡ string_of k =
              append-injective (codes "-") (string_of counter) (string_of k) tails in
            ground (arith, injective counter k digits)
      ]

  is_slug_once :
      (slug other : Text) (r : CategoryRow)
      → text_eq slug other ≡ false
      → is_slug slug r ≡ true
      → is_slug other r ≡ false
  is_slug_once slug other r apart h = ground (arith, text_eq→eq r.slug slug)

  search-drop_first :
      (fuel : ℕ) (slug other : Text) (counter : ℕ) (t : List CategoryRow)
      → text_eq slug other ≡ false
      → IsApart slug counter
      → search_slug string_of fuel parent_id exclude_id base other counter t
        ≡ search_slug string_of fuel parent_id exclude_id base other counter
            (drop_first (is_slug slug) t)
  unfolding search_slug
  search-drop_first zero slug other counter t apart later = refl
  search-drop_first (suc fuel) slug other counter t apart later = ground (
    arith,
    matches-drop_first (is_slug slug) (is_slug other) t (λ r h. is_slug_once slug other r apart h),
    search-drop_first fuel slug (numbered string_of base counter) (suc counter) t
        (later counter (omega arith)) (λ k h. later k (omega (arith, h))),
  )

  -- The loop finds a slug that no row has, where it may run once more than there are rows.
  search-finds :
      (fuel : ℕ) (slug : Text) (counter : ℕ) (t : List CategoryRow)
      → length t < fuel
      → IsApart slug counter
      → is_some (search_slug string_of fuel parent_id exclude_id base slug counter t) ≡ true
  unfolding search_slug
  search-finds zero slug counter t h apart = ground arith
  search-finds (suc fuel) slug counter t h apart = elim (Bool-cases (matches (is_slug slug) t)) [
    | inr e ↦ ground arith
    | inl e ↦
        let less : length (drop_first (is_slug slug) t) < fuel =
          omega (arith, length-drop_first (is_slug slug) t e, h) in
        let found =
          search-finds fuel (numbered string_of base counter) (suc counter)
            (drop_first (is_slug slug) t) less (numbered-IsApart counter) in
        rw
          (
            e,
            search-drop_first fuel slug (numbered string_of base counter) (suc counter) t
                (apart counter (omega arith)) (λ k j. apart k (omega (arith, j))),
          )
          found
  ]

  search-unused :
      (fuel : ℕ) (slug : Text) (counter : ℕ) (t : List CategoryRow) (found : Text)
      → search_slug string_of fuel parent_id exclude_id base slug counter t ≡ some found
      → matches (is_slug found) t ≡ false
  unfolding search_slug
  search-unused zero slug counter t found e = cc
  search-unused (suc fuel) slug counter t found e = elim (Bool-cases (matches (is_slug slug) t)) [
    | inl m ↦
        search-unused fuel (numbered string_of base counter) (suc counter) t found (ground arith)
    | inr m ↦ let same : slug ≡ found = ground arith in rw same at m
  ]

-- Where different numbers have different texts, the loop of `generateUniqueCategorySlug` ends after at
-- most one try more than there are categories, and its slug is one that no other category of the same
-- parent has.
pub generate_unique_category_slug_lem :
    (string_of : ℕ → Text) (to_base_slug : Text → Text) (name : Text) (given : Option Text)
    (parent_id exclude_id : Option ℕ) (rows : List CategoryRow)
    → ((i j : ℕ) → string_of i ≡ string_of j → i ≡ j)
    → (slug : Text) × (generate_unique_category_slug string_of to_base_slug name given parent_id
          exclude_id rows
        ≡ some slug)
      × (matches (has_slug parent_id exclude_id slug) rows ≡ false)
unfolding generate_unique_category_slug
generate_unique_category_slug_lem string_of to_base_slug name given parent_id exclude_id rows
      injective =
    let base = to_base_slug (elim given [ none ↦ name | some s ↦ s ]) in
    elim (Option-cases
      (search_slug string_of (suc (length rows)) parent_id exclude_id base base 2 rows)) [
        | inl e ↦
            let found =
              search-finds string_of parent_id exclude_id base injective (suc (length rows)) base 2
                rows (omega arith) (base-IsApart string_of parent_id exclude_id base injective) in
            absurd (ground arith)
        | inr (slug, e) ↦ (
          slug,
          e,
          search-unused string_of parent_id exclude_id base injective (suc (length rows)) base 2
              rows slug e,
        )
      ]
