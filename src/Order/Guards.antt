-- ===== src/Order/Guards.antt =====
-- src/shared/order/order.utils.ts
use commerce_core_api.Common.{Bool, not, ◌||◌, String}
use commerce_core_api.Common.Error.{Tx, throw_if, bad_request, ◌>>◌}
use commerce_core_api.Database.{Database}
use commerce_core_api.Database.Order.{
  OrderRow, OrderStatus, OrderPaymentStatus, order_is, payment_is,
}

-- `assertUpdated`, given whether `rowCount` is not 0
unfoldable pub assert_updated : Bool → String → Tx Database (Unit {0})
assert_updated updated message = throw_if (not updated) (bad_request message)

unfoldable pub assert_order_not_final : OrderRow → Tx Database (Unit {0})
assert_order_not_final o = do
  throw_if (order_is o.status OrderStatus.cancelled) (bad_request "Order already cancelled")
  throw_if (order_is o.status OrderStatus.completed) (bad_request "Order already completed")
  throw_if
      (payment_is o.payment_status OrderPaymentStatus.failed
        || payment_is o.payment_status OrderPaymentStatus.expired)
      (bad_request "Invalid payment state")
