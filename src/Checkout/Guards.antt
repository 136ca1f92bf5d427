-- ===== src/Checkout/Guards.antt =====
-- src/modules/user/checkout/checkout.user.utils.ts; src/modules/user/order/order.user.utils.ts has the
-- same two functions `assertCheckoutReady` and `assertItemsValid` once more.
use commerce_core_api.Common.{ℕ, not, ◌||◌, Option, List, [], ◌∷◌, Text, is_blank, is_some, ltb}
use commerce_core_api.Common.Int.{ℤ, pos, ◌+ℤ◌, ltb_ℤ, eqb_ℤ}
use commerce_core_api.Common.Error.{Tx, throw_if, or_throw, bad_request, pure, ◌>>=◌, ◌>>◌}
use commerce_core_api.Database.{Database}
use commerce_core_api.Database.Product.{OptionSnapshot, ProductStatus, is_active}
use commerce_core_api.Database.Checkout.{SessionRow}

-- `CheckoutSessionItemRow`: a session item joined with its variant and product
pub record CheckoutItem : Type 0 where
  pub variant_id : ℕ
  pub product_name : Text
  pub product_id : ℕ
  pub price : ℤ
  pub quantity : ℕ
  pub weight : ℤ
  pub stock : ℕ
  pub variant_status : ProductStatus
  pub product_status : ProductStatus
  pub slug : Text
  pub option_snapshot : Option (List OptionSnapshot)

-- The three totals of a `ReadyCheckoutSession`.
pub record Totals : Type 0 where
  pub subtotal : ℤ
  pub shipping_cost : ℤ
  pub total : ℤ

-- Returns the totals that the assertion has shown to be there.
unfoldable pub assert_checkout_ready : SessionRow → Tx Database Totals
assert_checkout_ready s = do
  subtotal ← or_throw s.subtotal (bad_request "Checkout totals incomplete")
  shipping_cost ← or_throw s.shipping_cost (bad_request "Checkout totals incomplete")
  total ← or_throw s.total (bad_request "Checkout totals incomplete")
  throw_if (ltb_ℤ shipping_cost (pos 0)) (bad_request "Invalid shipping cost")
  throw_if (is_blank s.shipping_etd) (bad_request "Shipping data incomplete")
  throw_if (is_blank s.courier_code || is_blank s.courier_service || is_blank s.courier_name)
      (bad_request "Shipping method not set")
  throw_if
      (is_blank s.recipient_name
        || is_blank s.phone
        || is_blank s.address_line
        || is_blank s.province_name
        || is_blank s.city_name
        || is_blank s.district_name)
      (bad_request "Address invalid")
  throw_if (not (eqb_ℤ (subtotal +ℤ shipping_cost) total)) (bad_request "Invalid total calculation")
  pure (record { subtotal = subtotal; shipping_cost = shipping_cost; total = total })

unfoldable pub assert_item_valid : CheckoutItem → Tx Database (Unit {0})
assert_item_valid item = do
  throw_if (not (is_active item.product_status) || not (is_active item.variant_status))
      (bad_request "Product unavailable")
  throw_if (ltb_ℤ item.price (pos 0)) (bad_request "Invalid price")
  throw_if (ltb item.stock item.quantity) (bad_request "Insufficient stock")
  throw_if (ltb_ℤ item.weight (pos 0)) (bad_request "Invalid item weight")

unfoldable pub assert_items_valid : List CheckoutItem → Tx Database (Unit {0})
unfolding assert_item_valid
assert_items_valid [] = pure tt
assert_items_valid (item ∷ items) =
    let rest = assert_items_valid items in assert_item_valid item >> rest

-- `now` is `new Date()`.
unfoldable pub assert_session_active : ℕ → SessionRow → Tx Database (Unit {0})
assert_session_active now s = do
  throw_if (is_some s.converted_at) (bad_request "Checkout already completed")
  throw_if (is_some s.revoked_at) (bad_request "Checkout session revoked")
  throw_if (ltb s.expires_at now) (bad_request "Checkout session expired")
