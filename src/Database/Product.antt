-- ===== src/Database/Product.antt =====
-- The rows of products and product_variants: src/shared/product/product.types.ts and
-- src/shared/variant-image/types.ts, with the columns that carts, checkouts and orders use.
use commerce_core_api.Common.{ℕ, Bool, true, false, Option, List, Text}
use commerce_core_api.Common.Int.{ℤ}

-- `ProductStatus` and `ProductVariantStatus`, which have the same words
pub data ProductStatus : Type 0 where
  active inactive archived : ProductStatus

-- `status === "ACTIVE"`
abbrev pub is_active : ProductStatus → Bool
is_active ProductStatus.active = true
is_active ProductStatus.inactive = false
is_active ProductStatus.archived = false

pub record OptionSnapshot : Type 0 where
  pub dimension : Text
  pub value : Text

pub record ProductRow : Type 0 where
  pub id : ℕ
  pub slug : Text
  pub name : Text
  pub status : ProductStatus

-- The stock is never negative: the admin schema has `.min(0)`, and `reduceStock` is guarded.
pub record VariantRow : Type 0 where
  pub id : ℕ
  pub product_id : ℕ
  pub price : ℤ
  pub weight : ℤ
  pub stock : ℕ
  pub sold : ℕ
  pub status : ProductStatus
  pub option_snapshot : Option (List OptionSnapshot)
