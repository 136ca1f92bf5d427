-- ===== src/Order/Lifecycle/Admin.antt =====
-- `markAsShipped` and `markAsDelivered` and the legal states of orders and shipments.
use commerce_core_api.Common.{ℕ, ◌≡◌, refl, ◌&&◌, some, Text, arith, Option-cases, inl, inr, ==→eq}
use commerce_core_api.Common.Error.{Commits}
use commerce_core_api.Common.Table.{find, update, find-key}
use commerce_core_api.Database.{Database}
use commerce_core_api.Database.Order.{
  OrderRow, ShipmentRow, OrderStatus, OrderPaymentStatus, OrderShipmentStatus, order_is,
}
use commerce_core_api.Order.Repo.{
  order_key, shipment_key, has_id, has_shipment, set_processing, set_shipped, set_completed,
  set_delivered, is_open,
}
use commerce_core_api.Order.Lifecycle.{IsConsistent, IsConsistentDb, update-IsConsistent}
use commerce_core_api.Order.Admin.{mark_as_shipped, mark_as_delivered}

ship_pair :
    (order_id : ℕ) (tn : Text) (now : ℕ) (db : Database) (o : OrderRow) (s : ShipmentRow)
    → find order_key order_id db.orders ≡ some o
    → find shipment_key order_id db.shipments ≡ some s
    → o.payment_status ≡ OrderPaymentStatus.paid
    → o.status ≡ OrderStatus.pending
    → s.status ≡ OrderShipmentStatus.pending
    → IsConsistentDb db
    → IsConsistent
        (update
          (λ o. has_id order_id o && order_is o.status OrderStatus.pending)
          set_processing
          db.orders)
        (update
          (has_shipment order_id OrderShipmentStatus.pending)
          (set_shipped tn now)
          db.shipments)
        db.next_order_id
ship_pair order_id tn now db o s eo es hp ho hs c =
    update-IsConsistent _ _ _ _ (λ _. refl) (λ _. refl)
      (λ k o' s' eo' es' legal. ground (
        arith,
        find-key order_key k db.orders eo',
        find-key shipment_key k db.shipments es',
        ==→eq o'.id order_id,
        ==→eq s'.order_id order_id,
      ))
      c

-- In a consistent database, shipping that commits keeps every pair legal and the ids distinct.
pub mark_as_shipped-IsConsistent :
    (order_id : ℕ) (tn : Text) (now : ℕ) (db : Database)
    → IsConsistentDb db
    → Commits IsConsistentDb (mark_as_shipped order_id tn now db)
unfolding mark_as_shipped
mark_as_shipped-IsConsistent order_id tn now db c =
    elim (Option-cases (find shipment_key order_id db.shipments)) [
      | inl es ↦ rw es tt
      | inr (s, es) ↦ elim (Option-cases (find order_key order_id db.orders)) [
        | inl eo ↦ ground arith
        | inr (o, eo) ↦
            ground (arith, c.legal order_id o s eo es, ship_pair order_id tn now db o s eo es)
      ]
    ]

pub deliver_pair :
    (order_id now : ℕ) (db : Database) (o : OrderRow) (s : ShipmentRow)
    → find order_key order_id db.orders ≡ some o
    → find shipment_key order_id db.shipments ≡ some s
    → s.status ≡ OrderShipmentStatus.shipped
    → IsConsistentDb db
    → IsConsistent
        (update (λ o. has_id order_id o && is_open o) set_completed db.orders)
        (update
          (has_shipment order_id OrderShipmentStatus.shipped)
          (set_delivered now)
          db.shipments)
        db.next_order_id
deliver_pair order_id now db o s eo es hs c =
    update-IsConsistent _ _ _ _ (λ _. refl) (λ _. refl)
      (λ k o' s' eo' es' legal. ground (
        arith,
        find-key order_key k db.orders eo',
        find-key shipment_key k db.shipments es',
        ==→eq o'.id order_id,
        ==→eq s'.order_id order_id,
      ))
      c

-- In a consistent database, a delivery that commits keeps every pair legal and the ids distinct.
pub mark_as_delivered-IsConsistent :
    (order_id now : ℕ) (db : Database)
    → IsConsistentDb db
    → Commits IsConsistentDb (mark_as_delivered order_id now db)
unfolding mark_as_delivered
mark_as_delivered-IsConsistent order_id now db c =
    elim (Option-cases (find shipment_key order_id db.shipments)) [
      | inl es ↦ rw es tt
      | inr (s, es) ↦ elim (Option-cases (find order_key order_id db.orders)) [
        | inl eo ↦ ground arith
        | inr (o, eo) ↦ ground (arith, deliver_pair order_id now db o s eo es)
      ]
    ]
