-- ===== src/Checkout/View/Agrees.antt =====
-- What a user is shown of a checkout, beside the guards of
-- src/modules/user/checkout/checkout.user.utils.ts that placing the order meets.
use commerce_core_api.Common.{
  ℕ, ◌≡◌, refl, false, not, ◌&&◌, Option, some, List, [], ◌∷◌, All, Text, arith, is_blank,
}
use commerce_core_api.Common.Int.{ℤ, pos, ◌+ℤ◌, ltb_ℤ, eqb_ℤ, eqb_ℤ_refl}
use commerce_core_api.Common.Error.{is_committed}
use commerce_core_api.Database.{Database}
use commerce_core_api.Database.Checkout.{SessionRow}
use commerce_core_api.Images.{ProductImages}
use commerce_core_api.Checkout.Guards.{
  CheckoutItem, assert_item_valid, assert_items_valid, assert_checkout_ready,
}
use commerce_core_api.Checkout.View.{
  map_session_item, items_pass, resolve_checkout_state, has_valid_address, is_id,
  map_checkout_session,
}

-- The price and the weight are not negative.
abbrev pub IsSellable : CheckoutItem → Type 0
IsSellable i = (ltb_ℤ i.price (pos 0) ≡ false) × (ltb_ℤ i.weight (pos 0) ≡ false)

pub items_pass_agrees :
    (lower : Text → Text) (image_map : ℕ → Option ProductImages) (items : List CheckoutItem)
    (db : Database)
    → All IsSellable items
    → items_pass (map_session_item lower image_map items)
      ≡ is_committed (assert_items_valid items db)
unfolding assert_items_valid assert_item_valid
items_pass_agrees lower image_map [] db h = refl
items_pass_agrees lower image_map (i ∷ t) db h =
    ground (arith, items_pass_agrees lower image_map t db h.1)

-- In a session with a courier's name, an estimate and a total that is the sum of the subtotal and a
-- shipping cost that is not negative, and with items whose prices and weights are not negative: the order
-- can be placed, as shown, exactly when both guards of the checkout pass, the shipping cost is not 0 and
-- the shipping city is set.
pub can_place_order_agrees :
    (lower : Text → Text) (image_map : ℕ → Option ProductImages) (s : SessionRow)
    (items : List CheckoutItem) (db : Database) (subtotal cost : ℤ)
    → s.subtotal ≡ some subtotal
    → s.shipping_cost ≡ some cost
    → s.total ≡ some (subtotal +ℤ cost)
    → ltb_ℤ cost (pos 0) ≡ false
    → is_blank s.shipping_etd ≡ false
    → is_blank s.courier_name ≡ false
    → All IsSellable items
    → (map_checkout_session lower image_map s items).can_place_order ≡ (
        is_committed (assert_checkout_ready s db)
        && is_committed (assert_items_valid items db)
        && not (eqb_ℤ cost (pos 0))
        && is_id s.shipping_city_id)
unfolding map_checkout_session resolve_checkout_state has_valid_address assert_checkout_ready
can_place_order_agrees lower image_map s items db subtotal cost e f g low etd name h =
    ground (arith, items_pass_agrees lower image_map items db h, eqb_ℤ_refl (subtotal +ℤ cost))
