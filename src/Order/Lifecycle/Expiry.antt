-- ===== src/Order/Lifecycle/Expiry.antt =====
-- What one run of `expireOrders` does to an order.
use commerce_core_api.Common.{
  ℕ, ◌<◌, ◌≡◌, refl, Bool, true, false, not, ◌&&◌, ◌⊎◌, inl, inr, some, List, map, length, includes,
  arith, Bool-cases,
}
use commerce_core_api.Common.Error.{Commits}
use commerce_core_api.Common.Table.{find, select, IsKeyed, find-update, find-key}
use commerce_core_api.Common.Sort.{sort_by, All-sort_by, All-take, All-select}
use commerce_core_api.Common.Batch.{
  take_all, includes-length, includes-found, includes-select, includes-sort_by,
}
use commerce_core_api.Database.{Database}
use commerce_core_api.Database.Order.{
  OrderRow, OrderStatus, OrderPaymentStatus, payment_is, order_is,
}
use commerce_core_api.Order.Repo.{order_key}
use commerce_core_api.Order.Worker.{
  is_overdue, select_overdue, set_order_expired, expire_orders, expires_first,
}

is_unpaid :
    (a : OrderPaymentStatus)
    → payment_is a OrderPaymentStatus.unpaid ≡ true
    → a ≡ OrderPaymentStatus.unpaid
is_unpaid OrderPaymentStatus.unpaid h = refl
is_unpaid OrderPaymentStatus.paid h = cc
is_unpaid OrderPaymentStatus.failed h = cc
is_unpaid OrderPaymentStatus.expired h = cc

is_pending : (a : OrderStatus) → order_is a OrderStatus.pending ≡ true → a ≡ OrderStatus.pending
is_pending OrderStatus.pending h = refl
is_pending OrderStatus.processing h = cc
is_pending OrderStatus.cancelled h = cc
is_pending OrderStatus.completed h = cc

-- An order that nobody has paid in time, and that no other transaction holds.
pub record IsForfeit (now : ℕ) (locked : ℕ → Bool) (o : OrderRow) : Type 0 where
  pub unpaid : o.payment_status ≡ OrderPaymentStatus.unpaid
  pub pending : o.status ≡ OrderStatus.pending
  pub late : o.expires_at < now
  pub free : locked o.id ≡ false

-- The order, cancelled and expired.
abbrev pub forfeited : ℕ → OrderRow → OrderRow
forfeited now o = record o {
  payment_status = OrderPaymentStatus.expired;
  status = OrderStatus.cancelled;
  cancelled_at = some now;
}

module _ (now : ℕ) (locked : ℕ → Bool) where
  abbrev picked : OrderRow → Bool
  picked o = is_overdue now o && not (locked o.id)

  picked-IsForfeit : (o : OrderRow) → picked o ≡ true → IsForfeit now locked o
  picked-IsForfeit o h = record {
    unpaid = is_unpaid o.payment_status (ground arith);
    pending = is_pending o.status (ground arith);
    late = ground arith;
    free = ground arith;
  }

  IsForfeit-picked : (o : OrderRow) → IsForfeit now locked o → picked o ≡ true
  IsForfeit-picked o f = ground (arith, f.unpaid, f.pending, f.late, f.free)

  select_overdue-picked :
      (orders : List OrderRow) (k : ℕ) (o : OrderRow)
      → IsKeyed order_key orders
      → find order_key k orders ≡ some o
      → includes k (map order_key (select_overdue now locked orders)) ≡ true
      → picked o ≡ true
  unfolding select_overdue
  select_overdue-picked orders k o keyed e h =
      let (r, found, p) =
        includes-found order_key picked k orders _
          (All-take _ 500 _ (All-sort_by _ _ _ (All-select order_key picked orders keyed))) h in
      ground arith

  picked-select_overdue :
      (orders : List OrderRow) (k : ℕ) (o : OrderRow)
      → length (select_overdue now locked orders) < 500
      → find order_key k orders ≡ some o
      → picked o ≡ true
      → includes k (map order_key (select_overdue now locked orders)) ≡ true
  unfolding select_overdue
  picked-select_overdue orders k o room e h =
      rw
        (
          take_all 500 (sort_by expires_first (select picked orders)) room,
          includes-sort_by order_key expires_first k (select picked orders),
        )
        (includes-select order_key picked k orders o e h)

  -- Where order ids are distinct, a run of `expireOrders` leaves an order as it was, or the order was
  -- unpaid, pending, past its expiry and not held by another transaction, and is then cancelled and
  -- expired.
  pub expire_orders_only :
      (db : Database) (k : ℕ) (o : OrderRow)
      → IsKeyed order_key db.orders
      → find order_key k db.orders ≡ some o
      → Commits
          (λ db'.
            (find order_key k db'.orders ≡ some o)
            ⊎ (IsForfeit now locked o × (find order_key k db'.orders ≡ some (forfeited now o))))
          (expire_orders now locked db)
  unfolding expire_orders
  expire_orders_only db k o keyed e =
      let ids = map order_key (select_overdue now locked db.orders) in
      let id = find-key order_key k db.orders e in
      let new =
        find-update order_key k (λ o. includes o.id ids) (set_order_expired now) db.orders
          (λ _. refl) in
      elim (Bool-cases (includes k ids)) [
        | inl h ↦
            let f = picked-IsForfeit o (select_overdue-picked db.orders k o keyed e h) in
            ground (arith, new, id, f, h)
        | inr h ↦ ground (arith, new, id, h)
      ]

  -- Where order ids are distinct and a run of `expireOrders` picks less than its limit of 500 orders,
  -- every order that is unpaid, pending, past its expiry and not held by another transaction is cancelled
  -- and expired after it.
  pub expire_orders_all :
      (db : Database) (k : ℕ) (o : OrderRow)
      → length (select_overdue now locked db.orders) < 500
      → find order_key k db.orders ≡ some o
      → IsForfeit now locked o
      → Commits
          (λ db'. find order_key k db'.orders ≡ some (forfeited now o))
          (expire_orders now locked db)
  unfolding expire_orders
  expire_orders_all db k o room e f =
      let ids = map order_key (select_overdue now locked db.orders) in
      let h = picked-select_overdue db.orders k o room e (IsForfeit-picked o f) in
      let new =
        find-update order_key k (λ o. includes o.id ids) (set_order_expired now) db.orders
          (λ _. refl) in
      ground (
        arith,
        new,
        find-key order_key k db.orders e,
        h,
        includes-length order_key k (select_overdue now locked db.orders) h,
      )
