-- ===== src/Images.antt =====
-- The choice of a variant's picture: src/shared/variant-image/resolver.ts and types.ts, and the result
-- type of src/modules/product/product-image.service.ts. An object with string keys is the list of its
-- entries; `lower` is `toLowerCase`.
pub mod Best
use commerce_core_api.Common.{
  ℕ, zero, suc, ◌+◌, Bool, true, false, Option, none, some, List, [], ◌∷◌, map, length, Text,
  text_eq, ltb, if◌then◌else◌,
}
use commerce_core_api.Database.Product.{OptionSnapshot}

pub record ImageSignature : Type 0 where
  pub image_id : ℕ
  pub image_key : Text
  pub signatures : List (Text × Text)

pub record ImageRef : Type 0 where
  pub image_id : ℕ
  pub image_key : Text

-- what `getVariantImagesBulk` gives for one product
pub record ProductImages : Type 0 where
  pub images : List ImageSignature
  pub fallback : Option ImageRef

-- `Object.fromEntries(…)[key]`: the last entry of a key wins.
abbrev pub entry : Text → List (Text × Text) → Option Text
entry key [] = none
entry key ((k, v) ∷ t) = elim (entry key t) [
  | some w ↦ some w
  | none ↦ if text_eq k key then some v else none
]

module _ (lower : Text → Text) where
  abbrev pub normalize_snapshot : List OptionSnapshot → List (Text × Text)
  normalize_snapshot = map λ opt. (lower opt.dimension, lower opt.value)

-- `normalized[key] !== value`, negated
abbrev pub has_entry : List (Text × Text) → Text → Text → Bool
has_entry normalized key value = elim (entry key normalized) [
  | none ↦ false
  | some v ↦ text_eq v value
]

-- The inner loop: whether every signature agrees, and then how many there are.
abbrev pub match_score : List (Text × Text) → List (Text × Text) → Option ℕ
match_score normalized [] = some 0
match_score normalized ((key, value) ∷ t) =
    let rest = match_score normalized t in
    if has_entry normalized key value
    then elim rest [ none ↦ none | some n ↦ some (suc n) ]
    else none

abbrev pub better : Option (ℕ × ImageSignature) → ℕ → ImageSignature → Option (ℕ × ImageSignature)
better none score img = some (score, img)
better (some (best, old)) score img = if ltb best score then some (score, img) else some (best, old)

-- The outer loop, with `bestMatch`.
unfoldable pub best_match :
    List (Text × Text)
    → Option (ℕ × ImageSignature)
    → List ImageSignature
    → Option (ℕ × ImageSignature)
best_match normalized best [] = best
best_match normalized best (img ∷ t) =
    best_match normalized
      (elim (match_score normalized img.signatures) [
        | none ↦ best
        | some score ↦ better best score img
      ])
      t

abbrev pub ref_of : ImageSignature → ImageRef
ref_of img = record { image_id = img.image_id; image_key = img.image_key }

abbrev options_of : Option (List OptionSnapshot) → List OptionSnapshot
options_of none = []
options_of (some os) = os

unfoldable pub find_best_image :
    (Text → Text) → List ImageSignature → Option (List OptionSnapshot) → Option ImageRef
unfolding best_match
find_best_image lower images snapshot =
    elim (best_match (normalize_snapshot lower (options_of snapshot)) none images) [
      | none ↦ none
      | some (score, img) ↦ some (ref_of img)
    ]
