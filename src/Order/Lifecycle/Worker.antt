-- ===== src/Order/Lifecycle/Worker.antt =====
-- The background jobs, the rows that they select, and the legal states of orders and shipments.
use commerce_core_api.Common.{ℕ, ◌≡◌, refl, Bool, true, not, ◌&&◌, some, List, map, includes, arith}
use commerce_core_api.Common.Error.{Commits}
use commerce_core_api.Common.Table.{find, update, IsKeyed, find-key}
use commerce_core_api.Common.Sort.{All-sort_by, All-take, All-select, includes-IsSelected}
use commerce_core_api.Database.{Database}
use commerce_core_api.Database.Order.{OrderRow, ShipmentRow, OrderShipmentStatus, shipment_is}
use commerce_core_api.Order.Repo.{order_key, shipment_key, set_delivered, is_open}
use commerce_core_api.Order.Worker.{
  is_overdue, select_overdue, set_order_expired, is_long_shipped, select_long_shipped,
  set_order_completed, expire_orders, auto_complete_delivered_orders,
}
use commerce_core_api.Order.Lifecycle.{
  IsConsistent, IsConsistentDb, update-IsConsistent, orders-IsConsistent,
}

-- Where ids are distinct, the sort, the limit and the locks of `expireOrders` pick only orders that pass its
-- test.
pub select_overdue_lem :
    (now : ℕ) (locked : ℕ → Bool) (orders : List OrderRow) (k : ℕ) {o : OrderRow}
    → IsKeyed order_key orders
    → includes k (map order_key (select_overdue now locked orders)) ≡ true
    → find order_key k orders ≡ some o
    → is_overdue now o ≡ true
unfolding select_overdue
select_overdue_lem now locked orders k {o} keyed h e =
    let p : OrderRow → Bool = λ o. is_overdue now o && not (locked o.id) in
    let both : p o ≡ true =
      includes-IsSelected order_key p k orders _
        (All-take _ 500 _ (All-sort_by _ _ _ (All-select order_key p orders keyed))) h e in
    ground arith

expire_pairs :
    (now : ℕ) (locked : ℕ → Bool) (db : Database)
    → IsConsistentDb db
    → IsConsistent
        (update
          (λ o. includes o.id (map order_key (select_overdue now locked db.orders)))
          (set_order_expired now)
          db.orders)
        db.shipments
        db.next_order_id
expire_pairs now locked db c =
    orders-IsConsistent _ _ (λ _. refl)
      (λ k o s eo es legal. ground (
        arith,
        select_overdue_lem now locked db.orders o.id {o = o} c.orders_keyed,
        find-key order_key k db.orders eo,
      ))
      c

-- In a consistent database, expiring orders keeps every pair legal and the ids distinct.
pub expire_orders-IsConsistent :
    (now : ℕ) (locked : ℕ → Bool) (db : Database)
    → IsConsistentDb db
    → Commits IsConsistentDb (expire_orders now locked db)
unfolding expire_orders
expire_orders-IsConsistent now locked db c = ground (arith, expire_pairs now locked db c)

-- In a consistent database, the sort and the limit of the automatic completion pick only shipments that pass
-- its test.
pub select_long_shipped_lem :
    (now : ℕ) (db : Database) (k : ℕ) {s : ShipmentRow}
    → IsConsistentDb db
    → includes k (map shipment_key (select_long_shipped now db)) ≡ true
    → find shipment_key k db.shipments ≡ some s
    → is_long_shipped now db.orders s ≡ true
unfolding select_long_shipped
select_long_shipped_lem now db k c h e =
    includes-IsSelected shipment_key (is_long_shipped now db.orders) k db.shipments _
      (All-take _ 200 _ (
        All-sort_by _ _ _
          (All-select shipment_key (is_long_shipped now db.orders) db.shipments c.shipments_keyed)))
      h e

complete_pairs :
    (now : ℕ) (db : Database)
    → IsConsistentDb db
    → let ids = map shipment_key (select_long_shipped now db) in
      IsConsistent
        (update (λ o. includes o.id ids && is_open o) (set_order_completed now) db.orders)
        (update
          (λ s. includes s.order_id ids && shipment_is s.status OrderShipmentStatus.shipped)
          (set_delivered now)
          db.shipments)
        db.next_order_id
complete_pairs now db c =
    update-IsConsistent _ _ _ _ (λ _. refl) (λ _. refl)
      (λ k o s eo es legal. ground (
        arith,
        select_long_shipped_lem now db k {s = s} c,
        find-key order_key k db.orders eo,
        find-key shipment_key k db.shipments es,
      ))
      c

-- In a consistent database, completing long-shipped orders keeps every pair legal and the ids distinct.
pub auto_complete_delivered_orders-IsConsistent :
    (now : ℕ) (db : Database)
    → IsConsistentDb db
    → Commits IsConsistentDb (auto_complete_delivered_orders now db)
unfolding auto_complete_delivered_orders
auto_complete_delivered_orders-IsConsistent now db c = ground (arith, complete_pairs now db c)
