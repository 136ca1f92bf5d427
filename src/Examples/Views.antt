-- ===== src/Examples/Views.antt =====
-- What a user is shown of an order and of a checkout on the small shop.
use commerce_core_api.Common.{
  ℕ, ◌≡◌, ◌≢◌, refl, true, not, ◌&&◌, Option, none, some, [], ◌∷◌, Text, codes, if◌then◌else◌,
}
use commerce_core_api.Common.Int.{pos, eqb_ℤ, ◌+ℤ◌}
use commerce_core_api.Common.Error.{Result, ok, is_committed}
use commerce_core_api.Database.Order.{OrderStatus, OrderPaymentStatus, OrderShipmentStatus}
use commerce_core_api.Images.{ProductImages}
use commerce_core_api.Payment.Midtrans.{MidtransPayload}
use commerce_core_api.Payment.Token.{create_snap_token}
use commerce_core_api.Order.User.{confirm_delivered}
use commerce_core_api.Order.View.{unknown, build_order_timeline, can_pay, OrderDto, map_order}
use commerce_core_api.Order.View.Listing.{OrderSummary, order_by_user, map_orders_by_user}
use commerce_core_api.Order.View.Agrees.{
  shown, current_steps, is_delivered, is_prefix, timeline_lem, can_confirm_agrees, can_pay_agrees,
}
use commerce_core_api.Checkout.Guards.{CheckoutItem, assert_checkout_ready, assert_items_valid}
use commerce_core_api.Checkout.Repo.{checkout_item}
use commerce_core_api.Checkout.View.{is_id, map_checkout_session}
use commerce_core_api.Checkout.View.Agrees.{can_place_order_agrees}
use commerce_core_api.Examples.Data.{
  order, shipment, unpaid_shop, shipped_shop, session, session_row, variant, product, user,
}

abbrev no_pictures : ℕ → Option ProductImages
no_pictures id = none

timeline_lem_example :
    (shown
        (order OrderStatus.processing OrderPaymentStatus.paid)
        (shipment OrderShipmentStatus.shipped)
      ≢ unknown)
    × (current_steps (
          build_order_timeline
            (order OrderStatus.processing OrderPaymentStatus.paid)
            (shipment OrderShipmentStatus.shipped)
            5
            none)
        ≡ (if is_delivered (
              shown
                (order OrderStatus.processing OrderPaymentStatus.paid)
                (shipment OrderShipmentStatus.shipped))
            then 0
            else 1))
    × (is_prefix (
          build_order_timeline
            (order OrderStatus.processing OrderPaymentStatus.paid)
            (shipment OrderShipmentStatus.shipped)
            5
            none)
        ≡ true)
timeline_lem_example =
    timeline_lem (order OrderStatus.processing OrderPaymentStatus.paid)
      (shipment OrderShipmentStatus.shipped) 5 none refl

abbrev shipped_page : OrderDto
shipped_page =
    map_order (order OrderStatus.processing OrderPaymentStatus.paid)
      (shipment OrderShipmentStatus.shipped) 5 none [] 70

abbrev shipped_row : OrderSummary
shipped_row = map_orders_by_user (
    order_by_user shipped_shop (order OrderStatus.processing OrderPaymentStatus.paid)
      (shipment OrderShipmentStatus.shipped) 5)

can_confirm_agrees_example :
    (shipped_page.can_confirm ≡ is_committed (confirm_delivered 1 (codes "ORD-5") 70 shipped_shop))
    × (shipped_row.can_confirm ≡ shipped_page.can_confirm)
    × (shipped_row.status ≡ shipped_page.status)
can_confirm_agrees_example =
    can_confirm_agrees shipped_shop (order OrderStatus.processing OrderPaymentStatus.paid)
      (shipment OrderShipmentStatus.shipped) [] 5 none 70 refl refl refl

-- A provider that always answers.
abbrev provider : MidtransPayload → Result (Text × Text)
provider p = ok (codes "token", codes "page")

abbrev no_digits : ℕ → Text
no_digits n = []

unpaid_payable : can_pay (order OrderStatus.pending OrderPaymentStatus.unpaid) 50 ≡ true
unfolding can_pay
unpaid_payable = refl

can_pay_agrees_example :
    is_committed (create_snap_token provider no_digits [] 1 (codes "ORD-5") [] 50 unpaid_shop)
    ≡ true
can_pay_agrees_example =
    can_pay_agrees provider no_digits [] unpaid_shop
      (order OrderStatus.pending OrderPaymentStatus.unpaid) user 50 [] refl refl unpaid_payable

abbrev item : CheckoutItem
item = checkout_item session_row variant product

total_is : session.total ≡ some (pos 10000 +ℤ pos 9000)
unfolding ◌+ℤ◌
total_is = refl

can_place_order_agrees_example :
    (map_checkout_session (λ t. t) no_pictures session (item ∷ [])).can_place_order ≡ (
      is_committed (assert_checkout_ready session unpaid_shop)
      && is_committed (assert_items_valid (item ∷ []) unpaid_shop)
      && not (eqb_ℤ (pos 9000) (pos 0))
      && is_id (some 17))
can_place_order_agrees_example =
    can_place_order_agrees (λ t. t) no_pictures session (item ∷ []) unpaid_shop (pos 10000)
      (pos 9000) refl refl total_is refl refl refl ((refl, refl), tt)
