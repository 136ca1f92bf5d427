-- ===== src/Order/Lifecycle/Completion.antt =====
-- What one run of the automatic completion does to an order.
use commerce_core_api.Common.{
  ℕ, ◌+◌, ◌<◌, ◌≡◌, refl, true, not, ◌&&◌, ◌⊎◌, inl, inr, some, map, includes, arith, Bool-cases,
  Option-cases,
}
use commerce_core_api.Common.Error.{Commits}
use commerce_core_api.Common.Table.{find, find-update, find-key}
use commerce_core_api.Common.Sort.{All-sort_by, All-take, All-select}
use commerce_core_api.Common.Batch.{includes-found}
use commerce_core_api.Database.{Database}
use commerce_core_api.Database.Order.{
  OrderRow, ShipmentRow, OrderStatus, OrderPaymentStatus, OrderShipmentStatus, payment_is, order_is,
  shipment_is,
}
use commerce_core_api.Order.Repo.{order_key, shipment_key, is_open}
use commerce_core_api.Order.Worker.{
  is_long_shipped, select_long_shipped, set_order_completed, auto_complete_delivered_orders,
}
use commerce_core_api.Order.Lifecycle.{IsConsistentDb}

is_paid :
    (a : OrderPaymentStatus)
    → payment_is a OrderPaymentStatus.paid ≡ true
    → a ≡ OrderPaymentStatus.paid
is_paid OrderPaymentStatus.unpaid h = cc
is_paid OrderPaymentStatus.paid h = refl
is_paid OrderPaymentStatus.failed h = cc
is_paid OrderPaymentStatus.expired h = cc

is_shipped :
    (a : OrderShipmentStatus)
    → shipment_is a OrderShipmentStatus.shipped ≡ true
    → a ≡ OrderShipmentStatus.shipped
is_shipped OrderShipmentStatus.pending h = cc
is_shipped OrderShipmentStatus.shipped h = refl
is_shipped OrderShipmentStatus.delivered h = cc

-- 14 days, in milliseconds
abbrev pub two_weeks : ℕ
two_weeks = 1_209_600_000

-- An order that is paid and not final, and whose parcel left more than 14 days ago.
pub record IsForgotten (now : ℕ) (db : Database) (o : OrderRow) : Type 0 where
  pub paid : o.payment_status ≡ OrderPaymentStatus.paid
  pub live : (o.status ≡ OrderStatus.pending) ⊎ (o.status ≡ OrderStatus.processing)
  pub parcel : ShipmentRow
  pub found : find shipment_key o.id db.shipments ≡ some parcel
  pub shipped : parcel.status ≡ OrderShipmentStatus.shipped
  pub left : ℕ
  pub left_at : parcel.shipped_at ≡ some left
  pub late : left + two_weeks < now

is_live :
    (o : OrderRow)
    → is_open o ≡ true
    → (o.status ≡ OrderStatus.pending) ⊎ (o.status ≡ OrderStatus.processing)
is_live o h = go o.status h
  where
    go :
        (a : OrderStatus)
        → (not (order_is a OrderStatus.completed) && not (order_is a OrderStatus.cancelled)) ≡ true
        → (a ≡ OrderStatus.pending) ⊎ (a ≡ OrderStatus.processing)
    go OrderStatus.pending h = inl refl
    go OrderStatus.processing h = inr refl
    go OrderStatus.cancelled h = cc
    go OrderStatus.completed h = cc

module _ (now : ℕ) (db : Database) (c : IsConsistentDb db) (o : OrderRow)
    (e : find order_key o.id db.orders ≡ some o) where
  long_shipped-IsForgotten :
      (s : ShipmentRow)
      → find shipment_key o.id db.shipments ≡ some s
      → is_long_shipped now db.orders s ≡ true
      → IsForgotten now db o
  long_shipped-IsForgotten s f h =
      let id = find-key shipment_key o.id db.shipments f in
      elim (Option-cases s.shipped_at) [
        | inl g ↦ absurd (ground arith)
        | inr (t, g) ↦ record {
          paid = is_paid o.payment_status (ground arith);
          live = is_live o (ground arith);
          parcel = s;
          found = f;
          shipped = is_shipped s.status (ground arith);
          left = t;
          left_at = g;
          late = ground arith;
        }
      ]

  select_long_shipped-IsForgotten :
      includes o.id (map shipment_key (select_long_shipped now db)) ≡ true → IsForgotten now db o
  unfolding select_long_shipped
  select_long_shipped-IsForgotten h =
      let (s, found, p) =
        includes-found shipment_key (is_long_shipped now db.orders) o.id db.shipments _
          (All-take _ 200 _ (
            All-sort_by _ _ _ (
              All-select shipment_key (is_long_shipped now db.orders) db.shipments
                c.shipments_keyed)))
          h in
      long_shipped-IsForgotten s found p

  -- In a consistent database, a run of the automatic completion leaves an order as it was, or the order was
  -- paid and not final and its parcel on its way for more than 14 days, and it is then completed.
  pub auto_complete_only :
      Commits
        (λ db'.
          (find order_key o.id db'.orders ≡ some o)
          ⊎ (IsForgotten now db o
              × (find order_key o.id db'.orders
                  ≡ some (record o { status = OrderStatus.completed; completed_at = some now }))))
        (auto_complete_delivered_orders now db)
  unfolding auto_complete_delivered_orders
  auto_complete_only =
      let ids = map shipment_key (select_long_shipped now db) in
      let new =
        find-update order_key o.id (λ o. includes o.id ids && is_open o) (set_order_completed now)
          db.orders (λ _. refl) in
      elim (Bool-cases (includes o.id ids)) [
        | inl h ↦ let f = select_long_shipped-IsForgotten h in ground (arith, new, f, h)
        | inr h ↦ ground (arith, new, h)
      ]
