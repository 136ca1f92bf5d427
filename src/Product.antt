-- ===== src/Product.antt =====
-- The writes of orders to product_variants: src/modules/product/product-metrics.repo.ts and
-- src/modules/product/product-stock.repo.ts.
pub mod Stock
use commerce_core_api.Common.{
  ℕ, ◌+◌, ◌-◌, Bool, true, false, not, ◌&&◌, Option, none, some, List, [], ◌∷◌, ◌==◌, leb,
  if◌then◌else◌,
}
use commerce_core_api.Common.Error.{Tx, gets, modify, throw_if, bad_request, pure, ◌>>=◌, ◌>>◌}
use commerce_core_api.Common.Table.{find_by, update, matches}
use commerce_core_api.Database.{Database}
use commerce_core_api.Database.Product.{VariantRow}
use commerce_core_api.Database.Order.{OrderItemRow}

abbrev pub variant_key : VariantRow → ℕ
variant_key v = v.id

abbrev pub is_item : ℕ → ℕ → OrderItemRow → Bool
is_item order_id variant_id i = i.order_id == order_id && i.variant_id == variant_id

-- `sold + oi.quantity`, for one joined row: an UPDATE … FROM takes one row of the join for each target.
abbrev pub add_sold : Option OrderItemRow → VariantRow → VariantRow
add_sold none v = v
add_sold (some i) v = record v { sold = v.sold + i.quantity }

unfoldable pub increment_variant_sold : ℕ → Tx Database (Unit {0})
increment_variant_sold order_id = modify λ db. record db {
  variants =
      update (λ v. matches (is_item order_id v.id) db.order_items)
        (λ v. add_sold (find_by (is_item order_id v.id) db.order_items) v) db.variants;
}

-- One round of `reduceStock`: `SET stock = stock - :qty WHERE id = :variantId AND stock >= :qty`.
abbrev pub has_stock : ℕ → ℕ → VariantRow → Bool
has_stock variant_id qty v = v.id == variant_id && leb qty v.stock

abbrev pub take_stock : ℕ → VariantRow → VariantRow
take_stock qty v = record v { stock = v.stock - qty }

unfoldable pub reduce_variant_stock : ℕ → ℕ → Tx Database (Unit {0})
reduce_variant_stock variant_id qty = do
  updated ← gets λ db. matches (has_stock variant_id qty) db.variants
  modify
      λ db. record db { variants = update (has_stock variant_id qty) (take_stock qty) db.variants }
  throw_if (not updated) (bad_request "Stock changed, please retry checkout")

-- `reduceStock`, on the variant and the quantity of each item
unfoldable pub reduce_stock : List (ℕ × ℕ) → Tx Database (Unit {0})
reduce_stock [] = pure tt
reduce_stock ((variant_id, qty) ∷ items) =
    let rest = reduce_stock items in reduce_variant_stock variant_id qty >> rest
