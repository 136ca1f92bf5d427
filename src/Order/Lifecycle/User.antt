-- ===== src/Order/Lifecycle/User.antt =====
-- `cancelOrder` and `confirmDelivered` and the legal states of orders and shipments.
use commerce_core_api.Common.{ℕ, ◌≡◌, refl, some, Text, arith, Option-cases, inl, inr, ==→eq}
use commerce_core_api.Common.Error.{Commits}
use commerce_core_api.Common.Table.{find, find_by, update, find-key, find-find_by}
use commerce_core_api.Database.{Database}
use commerce_core_api.Database.Order.{OrderRow, OrderPaymentStatus}
use commerce_core_api.Order.Repo.{order_key, shipment_key, has_id, has_code, set_cancelled}
use commerce_core_api.Order.Lifecycle.{IsConsistent, IsConsistentDb, orders-IsConsistent}
use commerce_core_api.Order.Lifecycle.Admin.{deliver_pair}
use commerce_core_api.Order.User.{cancel_order, confirm_delivered}

cancel_pair :
    (now : ℕ) (db : Database) (o : OrderRow)
    → find order_key o.id db.orders ≡ some o
    → o.payment_status ≡ OrderPaymentStatus.unpaid
    → IsConsistentDb db
    → IsConsistent
        (update (has_id o.id) (set_cancelled now) db.orders)
        db.shipments
        db.next_order_id
cancel_pair now db o eo hp c =
    orders-IsConsistent (has_id o.id) (set_cancelled now) (λ _. refl)
      (λ k o' s' eo' es' legal.
        ground (arith, find-key order_key k db.orders eo', ==→eq o'.id o.id))
      c

-- In a consistent database, a cancellation that commits keeps every pair legal and the ids distinct.
pub cancel_order-IsConsistent :
    (user_id : ℕ) (order_code : Text) (now : ℕ) (db : Database)
    → IsConsistentDb db
    → Commits IsConsistentDb (cancel_order user_id order_code now db)
unfolding cancel_order
cancel_order-IsConsistent user_id order_code now db c =
    elim (Option-cases (find_by (has_code order_code) db.orders)) [
      | inl e ↦ rw e tt
      | inr (o, e) ↦ ground (
        arith,
        cancel_pair now db o
            (find-find_by order_key (has_code order_code) db.orders c.orders_keyed e),
      )
    ]

-- In a consistent database, confirming a delivery keeps every pair legal and the ids distinct, if it
-- commits.
pub confirm_delivered-IsConsistent :
    (user_id : ℕ) (order_code : Text) (now : ℕ) (db : Database)
    → IsConsistentDb db
    → Commits IsConsistentDb (confirm_delivered user_id order_code now db)
unfolding confirm_delivered
confirm_delivered-IsConsistent user_id order_code now db c =
    elim (Option-cases (find_by (has_code order_code) db.orders)) [
      | inl e ↦ rw e tt
      | inr (o, e) ↦
          let eo = find-find_by order_key (has_code order_code) db.orders c.orders_keyed e in
          elim (Option-cases (find shipment_key o.id db.shipments)) [
            | inl es ↦ ground arith
            | inr (s, es) ↦ ground (arith, deliver_pair o.id now db o s eo es)
          ]
    ]
