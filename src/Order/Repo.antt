-- ===== src/Order/Repo.antt =====
-- `class OrderRepo` of src/modules/order/order.repo.ts: each query as a transaction step.
use commerce_core_api.Common.{ℕ, Bool, not, ◌&&◌, Option, some, Text, text_eq, ◌==◌}
use commerce_core_api.Common.Error.{Tx, gets, modify, ◌>>=◌, ◌>>◌, pure}
use commerce_core_api.Common.Table.{find, find_by, update, matches}
use commerce_core_api.Database.{Database}
use commerce_core_api.Database.Order.{
  OrderRow, ShipmentRow, OrderStatus, OrderPaymentStatus, OrderShipmentStatus, order_is,
  shipment_is,
}

abbrev pub order_key : OrderRow → ℕ
order_key o = o.id

abbrev pub shipment_key : ShipmentRow → ℕ
shipment_key s = s.order_id

-- `UPDATE orders SET f WHERE p`
abbrev pub update_orders : (OrderRow → Bool) → (OrderRow → OrderRow) → Database → Database
update_orders p f db = record db { orders = update p f db.orders }

-- `UPDATE order_shipments SET f WHERE p`
abbrev pub update_shipments :
    (ShipmentRow → Bool) → (ShipmentRow → ShipmentRow) → Database → Database
update_shipments p f db = record db { shipments = update p f db.shipments }

abbrev pub has_id : ℕ → OrderRow → Bool
has_id k o = o.id == k

abbrev pub has_code : Text → OrderRow → Bool
has_code code o = text_eq o.order_code code

unfoldable pub get_order_by_code_for_update : Text → Tx Database (Option OrderRow)
get_order_by_code_for_update code = gets λ db. find_by (has_code code) db.orders

unfoldable pub get_order_for_update : ℕ → Tx Database (Option OrderRow)
get_order_for_update order_id = gets λ db. find order_key order_id db.orders

abbrev pub set_paid : ℕ → OrderRow → OrderRow
set_paid now o = record o { payment_status = OrderPaymentStatus.paid; paid_at = some now }

unfoldable pub mark_order_paid : ℕ → ℕ → Tx Database (Unit {0})
mark_order_paid order_id now = modify (update_orders (has_id order_id) (set_paid now))

abbrev pub set_expired : OrderRow → OrderRow
set_expired o = record o { payment_status = OrderPaymentStatus.expired }

unfoldable pub mark_order_expired : ℕ → Tx Database (Unit {0})
mark_order_expired order_id = modify (update_orders (has_id order_id) set_expired)

abbrev pub set_failed : OrderRow → OrderRow
set_failed o = record o { payment_status = OrderPaymentStatus.failed }

unfoldable pub mark_order_failed : ℕ → Tx Database (Unit {0})
mark_order_failed order_id = modify (update_orders (has_id order_id) set_failed)

abbrev pub set_cancelled : ℕ → OrderRow → OrderRow
set_cancelled now o = record o {
  status = OrderStatus.cancelled;
  payment_status = OrderPaymentStatus.failed;
  cancelled_at = some now;
}

unfoldable pub mark_order_cancelled : ℕ → ℕ → Tx Database (Unit {0})
mark_order_cancelled order_id now = modify (update_orders (has_id order_id) (set_cancelled now))

unfoldable pub get_shipment_for_update : ℕ → Tx Database (Option ShipmentRow)
get_shipment_for_update order_id = gets λ db. find shipment_key order_id db.shipments

abbrev pub has_shipment : ℕ → OrderShipmentStatus → ShipmentRow → Bool
has_shipment order_id status s = s.order_id == order_id && shipment_is s.status status

abbrev pub set_shipped : Text → ℕ → ShipmentRow → ShipmentRow
set_shipped tracking_number shipped_at s = record s {
  tracking_number = some tracking_number;
  status = OrderShipmentStatus.shipped;
  shipped_at = some shipped_at;
}

abbrev pub set_delivered : ℕ → ShipmentRow → ShipmentRow
set_delivered delivered_at s = record s {
  status = OrderShipmentStatus.delivered;
  delivered_at = some delivered_at;
}

-- An `UPDATE` that returns whether its `rowCount` is not 0.
unfoldable pub update_shipment_to_shipped : ℕ → Text → ℕ → Tx Database Bool
update_shipment_to_shipped order_id tracking_number shipped_at = do
  let p = has_shipment order_id OrderShipmentStatus.pending
  updated ← gets λ db. matches p db.shipments
  modify (update_shipments p (set_shipped tracking_number shipped_at))
  pure updated

unfoldable pub update_shipment_to_delivered : ℕ → ℕ → Tx Database Bool
update_shipment_to_delivered order_id delivered_at = do
  let p = has_shipment order_id OrderShipmentStatus.shipped
  updated ← gets λ db. matches p db.shipments
  modify (update_shipments p (set_delivered delivered_at))
  pure updated

abbrev pub set_processing : OrderRow → OrderRow
set_processing o = record o { status = OrderStatus.processing }

unfoldable pub update_order_to_processing : ℕ → Tx Database (Unit {0})
update_order_to_processing order_id =
    modify (
      update_orders (λ o. has_id order_id o && order_is o.status OrderStatus.pending)
        set_processing)

abbrev pub set_completed : OrderRow → OrderRow
set_completed o = record o { status = OrderStatus.completed }

abbrev pub is_open : OrderRow → Bool
is_open o =
    not (order_is o.status OrderStatus.completed) && not (order_is o.status OrderStatus.cancelled)

unfoldable pub update_order_to_completed : ℕ → Tx Database (Unit {0})
update_order_to_completed order_id =
    modify (update_orders (λ o. has_id order_id o && is_open o) set_completed)
