-- ===== src/Order/Admin.antt =====
-- `markAsShipped` and `markAsDelivered` of src/modules/admin/order/order.service.ts. The argument
-- `now` is the value of `new Date()`.
use commerce_core_api.Common.{ℕ, not, Text}
use commerce_core_api.Common.Error.{
  Tx, throw_if, or_throw, when, bad_request, not_found, ◌>>=◌, ◌>>◌,
}
use commerce_core_api.Database.{Database}
use commerce_core_api.Database.Order.{
  OrderStatus, OrderPaymentStatus, OrderShipmentStatus, order_is, payment_is, shipment_is,
}
use commerce_core_api.Order.Repo.{
  get_order_for_update, get_shipment_for_update, update_shipment_to_shipped,
  update_shipment_to_delivered, update_order_to_processing, update_order_to_completed,
}
use commerce_core_api.Order.Guards.{assert_updated, assert_order_not_final}

unfoldable pub mark_as_shipped : ℕ → Text → ℕ → Tx Database (Unit {0})
unfolding get_order_for_update get_shipment_for_update update_shipment_to_shipped
    update_order_to_processing assert_updated assert_order_not_final
mark_as_shipped order_id tracking_number now = do
  found ← get_shipment_for_update order_id
  shipment ← or_throw found (not_found "Shipment not found")
  throw_if (not (shipment_is shipment.status OrderShipmentStatus.pending))
      (bad_request "Already shipped")
  found_order ← get_order_for_update order_id
  order ← or_throw found_order (not_found "Order not found")
  assert_order_not_final order
  throw_if (not (payment_is order.payment_status OrderPaymentStatus.paid))
      (bad_request "Order not paid")
  updated ← update_shipment_to_shipped order_id tracking_number now
  assert_updated updated "Shipment already processed or invalid state"
  when (order_is order.status OrderStatus.pending) (update_order_to_processing order_id)

unfoldable pub mark_as_delivered : ℕ → ℕ → Tx Database (Unit {0})
unfolding get_order_for_update get_shipment_for_update update_shipment_to_delivered
    update_order_to_completed assert_updated assert_order_not_final
mark_as_delivered order_id now = do
  found ← get_shipment_for_update order_id
  shipment ← or_throw found (not_found "Shipment not found")
  throw_if (not (shipment_is shipment.status OrderShipmentStatus.shipped))
      (bad_request "Order not shipped yet")
  found_order ← get_order_for_update order_id
  order ← or_throw found_order (not_found "Order not found")
  assert_order_not_final order
  updated ← update_shipment_to_delivered order_id now
  assert_updated updated "Order not in shipped state"
  update_order_to_completed order_id
