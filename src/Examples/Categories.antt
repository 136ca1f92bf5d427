-- ===== src/Examples/Categories.antt =====
-- A tree of two categories.
use commerce_core_api.Common.{
  ℕ, zero, suc, ◌≡◌, refl, false, none, some, [], ◌∷◌, Text, codes, arith, ◌==◌, Bool-cases, inl,
  inr, subst, length,
}
use commerce_core_api.Common.Error.{Commits}
use commerce_core_api.Common.Table.{matches}
use commerce_core_api.Category.{
  CategoryRow, CategoryStatus, CategoryInput, Catalogue, has_slug, generate_unique_category_slug,
}
use commerce_core_api.Category.Slugs.{generate_unique_category_slug_lem}
use commerce_core_api.Category.Forest.{IsForest, IsPlaced}
use commerce_core_api.Category.Requests.{create, serve, serve-IsForest}

abbrev menswear : CategoryRow
menswear = record {
  id = 1;
  parent_id = none;
  name = codes "Men";
  slug = codes "men";
  description = none;
  sort_order = 0;
  status = CategoryStatus.active;
  id_path = 1 ∷ [];
  slug_path = codes "men" ∷ [];
}

abbrev catalogue : Catalogue
catalogue = record {
  categories = menswear ∷ [];
  banner_targets = [];
  product_categories = [];
  next_category_id = 2;
}

-- A text of as many strokes as the number.
abbrev strokes : ℕ → Text
strokes zero = []
strokes (suc n) = 49 ∷ strokes n

length-strokes : (n : ℕ) → length (strokes n) ≡ n
length-strokes zero = refl
length-strokes (suc n) = ground (arith, length-strokes n)

strokes-injective : (i j : ℕ) → strokes i ≡ strokes j → i ≡ j
strokes-injective i j e =
    let same : length (strokes i) ≡ length (strokes j) = cc in
    omega (arith, length-strokes i, length-strokes j, same)

generate_unique_category_slug_lem_example :
    (slug : Text) × (generate_unique_category_slug strokes
        (λ t. t)
        (codes "men")
        none
        none
        none
        (menswear ∷ [])
      ≡ some slug)
    × (matches (has_slug none none slug) (menswear ∷ []) ≡ false)
generate_unique_category_slug_lem_example =
    generate_unique_category_slug_lem strokes (λ t. t) (codes "men") none none none (menswear ∷ [])
      strokes-injective

catalogue-IsForest : IsForest catalogue
catalogue-IsForest = (
  λ k c e. elim (Bool-cases (1 == k)) [
    | inl h ↦
        let same : menswear ≡ c = ground arith in
        subst (IsPlaced catalogue.categories) same ([], refl, refl, omega arith)
    | inr h ↦ absurd (ground arith)
  ],
  λ k h. ground arith,
)

abbrev hoodies : CategoryInput
hoodies = record {
  parent_id = some 1;
  name = codes "Hoodies";
  slug = none;
  description = none;
  status = CategoryStatus.active;
}

serve-IsForest_example : Commits IsForest (serve strokes (λ t. t) (create hoodies) catalogue)
serve-IsForest_example =
    serve-IsForest strokes (λ t. t) (create hoodies) catalogue catalogue-IsForest
