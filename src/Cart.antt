-- ===== src/Cart.antt =====
-- `class CartService` of src/modules/cart/cart.service.ts. No handler opens a transaction, so each
-- statement of a handler commits by itself. A quantity is a number that the schemas of cart.schema.ts
-- have let through: not negative.
pub mod Repo
pub mod View
pub mod Quantities
pub mod Items
pub mod Held
pub mod Refine
pub mod Warnings
use commerce_core_api.Common.{
  ℕ, ◌+◌, min, Bool, not, ◌&&◌, Option, none, some, List, [], ◌∷◌, Text, ltb,
}
use commerce_core_api.Common.Int.{ℤ, pos, ◌+ℤ◌, ◌*ℤ◌}
use commerce_core_api.Common.Error.{Tx, not_found, bad_request}
use commerce_core_api.Common.Steps.{Steps, done, statement, fail_if, or_fail, ◌>>=◌, ◌>>◌}
use commerce_core_api.Database.{Database}
use commerce_core_api.Database.Product.{is_active}
use commerce_core_api.Images.{ProductImages}
use Repo.{
  max_cart_item_qty, find_cart_by_user_id, create_cart, find_cart_items, find_variant_for_cart,
  upsert_cart_item, update_cart_item_quantity, delete_cart_item,
}
use View.{CartItemDto, map_cart_items}

unfoldable pub resolve_user_cart : ℕ → Steps Database ℕ
resolve_user_cart user_id = do
  found ← statement (find_cart_by_user_id user_id)
  elim found [
    | some cart ↦ done cart.id
    | none ↦ (statement (create_cart (some user_id)) >>= λ cart. done cart.id)
  ]

pub record Summary : Type 0 where
  pub total_items : ℕ
  pub subtotal : ℤ

-- The loop over the items, with `totalItems` and `subtotal`.
abbrev pub sum_items : Summary → List CartItemDto → Summary
sum_items s [] = s
sum_items s (item ∷ t) =
    sum_items
      (record {
        total_items = s.total_items + item.quantity;
        subtotal = s.subtotal +ℤ (item.price *ℤ pos item.quantity);
      })
      t

abbrev pub no_items : Summary
no_items = record { total_items = 0; subtotal = pos 0 }

unfoldable pub get_cart :
    (Text → Text) → (ℕ → Option ProductImages) → ℕ → Steps Database (List CartItemDto × Summary)
get_cart lower image_map user_id = do
  cart_id ← resolve_user_cart user_id
  rows ← statement (find_cart_items cart_id)
  let items = map_cart_items lower image_map rows
  done (items, sum_items no_items items)

abbrev pub clamp_quantity : ℕ → ℕ
clamp_quantity qty = min qty max_cart_item_qty

unfoldable pub add_item : ℕ → ℕ → ℕ → Steps Database (Unit {0})
add_item user_id variant_id quantity = do
  cart_id ← resolve_user_cart user_id
  found ← statement (find_variant_for_cart variant_id)
  variant ← or_fail found (not_found "Variant not found")
  fail_if (not (is_active variant.status)) (bad_request "Variant is not available")
  statement (upsert_cart_item cart_id variant_id (clamp_quantity quantity))

unfoldable pub update_item : ℕ → ℕ → ℕ → Steps Database (Unit {0})
update_item user_id variant_id quantity = do
  cart_id ← resolve_user_cart user_id
  updated ← statement (update_cart_item_quantity cart_id variant_id quantity)
  fail_if (not updated && ltb 0 quantity) (not_found "Cart item not found")

unfoldable pub delete_item : ℕ → ℕ → Steps Database (Unit {0})
delete_item user_id variant_id = do
  cart_id ← resolve_user_cart user_id
  statement (delete_cart_item cart_id variant_id)
