-- ===== src/Order/Worker.antt =====
-- The background transitions of orders: `expireOrders` of src/modules/internal/workers/worker.repo.ts
-- and the handler of src/workers/jobs/auto-complete-delivered-orders.job.ts. The argument `now` is
-- `NOW()`, and `locked` says which rows another transaction holds (`SKIP LOCKED`).
use commerce_core_api.Common.{
  ℕ, ◌+◌, ◌-◌, ◌*◌, Bool, false, not, ◌&&◌, ◌||◌, Option, none, some, List, [], ◌∷◌, map, take,
  length, includes, ltb, ◌==◌, if◌then◌else◌,
}
use commerce_core_api.Common.Error.{Tx, gets, modify, pure, ◌>>=◌, ◌>>◌}
use commerce_core_api.Common.Table.{find, update, matches, select}
use commerce_core_api.Common.Sort.{sort_by}
use commerce_core_api.Database.{Database}
use commerce_core_api.Database.Order.{
  OrderRow, OrderItemRow, ShipmentRow, OrderStatus, OrderPaymentStatus, OrderShipmentStatus,
  order_is, payment_is, shipment_is,
}
use commerce_core_api.Order.Repo.{
  order_key, shipment_key, update_orders, update_shipments, set_delivered, is_open,
}

-- `expires_at ASC, id ASC`
abbrev pub expires_first : OrderRow → OrderRow → Bool
expires_first a b = ltb a.expires_at b.expires_at || a.expires_at == b.expires_at && ltb a.id b.id

abbrev pub is_overdue : ℕ → OrderRow → Bool
is_overdue now o =
    payment_is o.payment_status OrderPaymentStatus.unpaid
    && order_is o.status OrderStatus.pending
    && ltb o.expires_at now

unfoldable pub select_overdue : ℕ → (ℕ → Bool) → List OrderRow → List OrderRow
select_overdue now locked orders =
    take 500 (sort_by expires_first (select (λ o. is_overdue now o && not (locked o.id)) orders))

abbrev pub is_item_of : List ℕ → ℕ → OrderItemRow → Bool
is_item_of order_ids variant_id i = includes i.order_id order_ids && i.variant_id == variant_id

-- `SUM(quantity) … GROUP BY variant_id`, for one variant
abbrev pub total_qty : List ℕ → ℕ → List OrderItemRow → ℕ
total_qty order_ids variant_id [] = 0
total_qty order_ids variant_id (i ∷ t) =
    (if is_item_of order_ids variant_id i then i.quantity else 0) + total_qty order_ids variant_id t

unfoldable pub release_stock : List ℕ → Tx Database (Unit {0})
release_stock order_ids = modify λ db. record db {
  variants =
      update (λ v. matches (is_item_of order_ids v.id) db.order_items)
        (λ v. record v { stock = v.stock + total_qty order_ids v.id db.order_items }) db.variants;
}

abbrev pub set_order_expired : ℕ → OrderRow → OrderRow
set_order_expired now o = record o {
  payment_status = OrderPaymentStatus.expired;
  status = OrderStatus.cancelled;
  cancelled_at = some now;
}

-- Returns `affected`.
unfoldable pub expire_orders : ℕ → (ℕ → Bool) → Tx Database ℕ
unfolding release_stock
expire_orders now locked = do
  rows ← gets λ db. select_overdue now locked db.orders
  let order_ids = map order_key rows
  if length rows == 0
      then pure 0
      else (release_stock order_ids
          >> modify (update_orders (λ o. includes o.id order_ids) (set_order_expired now))
          >> pure (length order_ids))

abbrev pub fourteen_days : ℕ
fourteen_days = 14 * 24 * 60 * 60 * 1000

abbrev shipped_before : ℕ → Option ℕ → Bool
shipped_before limit none = false
shipped_before limit (some t) = ltb t limit

-- `now - INTERVAL '14 days'` on the left of `<`, moved to the right side.
abbrev pub is_settled_order : Option OrderRow → Bool
is_settled_order none = false
is_settled_order (some o) = payment_is o.payment_status OrderPaymentStatus.paid && is_open o

abbrev pub is_long_shipped : ℕ → List OrderRow → ShipmentRow → Bool
is_long_shipped now orders s =
    shipment_is s.status OrderShipmentStatus.shipped
    && shipped_before (now - fourteen_days) s.shipped_at
    && is_settled_order (find order_key s.order_id orders)

abbrev shipped_at_or : Option ℕ → ℕ
shipped_at_or none = 0
shipped_at_or (some t) = t

abbrev shipped_first : ShipmentRow → ShipmentRow → Bool
shipped_first a b = ltb (shipped_at_or a.shipped_at) (shipped_at_or b.shipped_at)

unfoldable pub select_long_shipped : ℕ → Database → List ShipmentRow
select_long_shipped now db =
    take 200 (sort_by shipped_first (select (is_long_shipped now db.orders) db.shipments))

abbrev pub set_order_completed : ℕ → OrderRow → OrderRow
set_order_completed now o = record o { status = OrderStatus.completed; completed_at = some now }

-- Returns the number of orders.
unfoldable pub auto_complete_delivered_orders : ℕ → Tx Database ℕ
auto_complete_delivered_orders now = do
  rows ← gets (select_long_shipped now)
  let order_ids = map shipment_key rows
  if length rows == 0
      then pure 0
      else (modify (
            update_shipments
              (λ s.
                includes s.order_id order_ids && shipment_is s.status OrderShipmentStatus.shipped)
              (set_delivered now))
          >> modify
              (update_orders (λ o. includes o.id order_ids && is_open o) (set_order_completed now))
          >> pure (length order_ids))
