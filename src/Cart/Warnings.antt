-- ===== src/Cart/Warnings.antt =====
-- The warnings of src/modules/cart/cart.mapper.ts, beside the guard of
-- src/modules/user/checkout/checkout.user.utils.ts that a checkout of the same item meets.
use commerce_core_api.Common.{ℕ, ◌≤◌, ◌≡◌, Bool, true, false, not, Option, none, some, Text, arith}
use commerce_core_api.Common.Error.{is_committed}
use commerce_core_api.Common.Int.{pos, ltb_ℤ}
use commerce_core_api.Database.{Database}
use commerce_core_api.Database.Product.{VariantRow, ProductRow}
use commerce_core_api.Database.Checkout.{CartItemRow}
use commerce_core_api.Images.{ProductImages}
use commerce_core_api.Checkout.Guards.{assert_item_valid}
use commerce_core_api.Checkout.Repo.{cart_line, session_item, checkout_item}
use commerce_core_api.Cart.Repo.{cart_item}
use commerce_core_api.Cart.View.{
  CartWarning, unavailable, out_of_stock, insufficient_stock, low_stock, get_cart_warning,
  map_cart_item,
}

-- A warning that goes with an item that cannot be bought at all.
abbrev pub is_absent : Option CartWarning → Bool
is_absent none = false
is_absent (some unavailable) = true
is_absent (some out_of_stock) = true
is_absent (some insufficient_stock) = false
is_absent (some low_stock) = false

-- A warning that goes with a quantity that cannot be bought.
abbrev pub is_blocking : Option CartWarning → Bool
is_blocking none = false
is_blocking (some unavailable) = true
is_blocking (some out_of_stock) = true
is_blocking (some insufficient_stock) = true
is_blocking (some low_stock) = false

-- An item of a cart, with a quantity of at least 1 and a price and a weight that are not negative, is
-- accepted by the checkout's guard exactly when its warning in the cart is not one of UNAVAILABLE,
-- OUT_OF_STOCK and INSUFFICIENT_STOCK; and it is shown as available exactly when its warning is not one
-- of the first two.
pub warning_agrees :
    (ci : CartItemRow) (v : VariantRow) (p : ProductRow) (session_id : ℕ) (lower : Text → Text)
    (image_map : ℕ → Option ProductImages) (db : Database)
    → 1 ≤ ci.quantity
    → ltb_ℤ v.price (pos 0) ≡ false
    → ltb_ℤ v.weight (pos 0) ≡ false
    → (is_committed
          (assert_item_valid (checkout_item (session_item session_id (cart_line ci v p)) v p) db)
        ≡ not (is_blocking (map_cart_item lower image_map (cart_item ci v p)).warning))
      × ((map_cart_item lower image_map (cart_item ci v p)).is_available
          ≡ not (is_absent (map_cart_item lower image_map (cart_item ci v p)).warning))
unfolding assert_item_valid map_cart_item get_cart_warning
warning_agrees ci v p session_id lower image_map db q price weight = ground arith
