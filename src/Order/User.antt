-- ===== src/Order/User.antt =====
-- `cancelOrder` and `confirmDelivered` of src/modules/user/order/order.user.service.ts. The argument
-- `now` is the value of `new Date()` or of `NOW()`.
use commerce_core_api.Common.{ℕ, not, ◌||◌, Text, ◌==◌, if◌then◌else◌}
use commerce_core_api.Common.Error.{
  Tx, throw_if, or_throw, bad_request, not_found, forbidden, pure, ◌>>=◌, ◌>>◌,
}
use commerce_core_api.Database.{Database}
use commerce_core_api.Database.Order.{
  OrderStatus, OrderPaymentStatus, OrderShipmentStatus, order_is, payment_is, shipment_is,
}
use commerce_core_api.Order.Repo.{
  get_order_by_code_for_update, get_shipment_for_update, mark_order_cancelled,
  update_shipment_to_delivered, update_order_to_completed,
}
use commerce_core_api.Order.Guards.{assert_order_not_final}

unfoldable pub cancel_order : ℕ → Text → ℕ → Tx Database (Unit {0})
unfolding get_order_by_code_for_update mark_order_cancelled assert_order_not_final
cancel_order user_id order_code now = do
  found ← get_order_by_code_for_update order_code
  order ← or_throw found (not_found "Order not found")
  throw_if (not (order.user_id == user_id)) (forbidden "Forbidden")
  assert_order_not_final order
  throw_if (payment_is order.payment_status OrderPaymentStatus.paid)
      (bad_request "Order already paid")
  if order_is order.status OrderStatus.cancelled || order_is order.status OrderStatus.completed
      then pure tt
      else mark_order_cancelled order.id now

unfoldable pub confirm_delivered : ℕ → Text → ℕ → Tx Database (Unit {0})
unfolding get_order_by_code_for_update get_shipment_for_update update_shipment_to_delivered
    update_order_to_completed assert_order_not_final
confirm_delivered user_id order_code now = do
  found ← get_order_by_code_for_update order_code
  order ← or_throw found (not_found "Order not found")
  throw_if (not (order.user_id == user_id)) (forbidden "Forbidden")
  assert_order_not_final order
  found_shipment ← get_shipment_for_update order.id
  shipment ← or_throw found_shipment (not_found "Shipment not found")
  if shipment_is shipment.status OrderShipmentStatus.delivered
      then pure tt
      else (throw_if (not (shipment_is shipment.status OrderShipmentStatus.shipped))
            (bad_request "Order not in shipped state")
          >> update_shipment_to_delivered order.id now
          >> update_order_to_completed order.id)
