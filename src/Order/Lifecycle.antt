-- ===== src/Order/Lifecycle.antt =====
-- The states that an order and its shipment can be in together, over the tables orders and
-- order_shipments: the words of src/shared/order/order.types.ts as src/modules/order/order.repo.ts
-- writes them.
pub mod Admin
pub mod User
pub mod Worker
pub mod Expiry
pub mod Completion
pub mod Accepts
pub mod Progress
use commerce_core_api.Common.{
  ℕ, ◌≤◌, ◌≡◌, refl, Bool, true, false, Option, none, some, List, arith, if◌then◌else◌,
  Option-cases, Bool-cases, inl, inr, ◌==◌,
}
use commerce_core_api.Common.Table.{
  find, update, IsKeyed, set_if, set_if-some, find-update, update-IsKeyed,
}
use commerce_core_api.Database.{Database}
use commerce_core_api.Database.Order.{
  OrderRow, ShipmentRow, OrderStatus, OrderPaymentStatus, OrderShipmentStatus,
}
use commerce_core_api.Order.Repo.{order_key, shipment_key}

-- Nine of the 48 combinations: an order is PROCESSING exactly while its parcel is on the way,
-- COMPLETED exactly when it is delivered, both only when PAID; a cancelled order is never UNPAID.
abbrev pub is_legal : OrderStatus → OrderPaymentStatus → OrderShipmentStatus → Bool
is_legal OrderStatus.pending p OrderShipmentStatus.pending = true
is_legal OrderStatus.processing OrderPaymentStatus.paid OrderShipmentStatus.shipped = true
is_legal OrderStatus.completed OrderPaymentStatus.paid OrderShipmentStatus.delivered = true
is_legal OrderStatus.cancelled OrderPaymentStatus.unpaid OrderShipmentStatus.pending = false
is_legal OrderStatus.cancelled p OrderShipmentStatus.pending = true
is_legal o p s = false

abbrev pub is_legal_pair : OrderRow → ShipmentRow → Bool
is_legal_pair o s = is_legal o.status o.payment_status s.status

-- The keys are distinct and below the next value of the sequence, and every order with a shipment is
-- in a legal state.
pub record IsConsistent (orders : List OrderRow) (shipments : List ShipmentRow) (next : ℕ)
    : Type 0 where
  pub orders_keyed : IsKeyed order_key orders
  pub shipments_keyed : IsKeyed shipment_key shipments
  pub orders_below : (k : ℕ) → next ≤ k → find order_key k orders ≡ none
  pub shipments_below : (k : ℕ) → next ≤ k → find shipment_key k shipments ≡ none
  pub legal :
      (k : ℕ) (o : OrderRow) (s : ShipmentRow)
      → find order_key k orders ≡ some o
      → find shipment_key k shipments ≡ some s
      → is_legal_pair o s ≡ true

abbrev pub IsConsistentDb : Database → Type 0
IsConsistentDb db = IsConsistent db.orders db.shipments db.next_order_id

module _ {orders : List OrderRow} {shipments : List ShipmentRow} {next : ℕ} (p : OrderRow → Bool)
    (f : OrderRow → OrderRow) (q : ShipmentRow → Bool) (g : ShipmentRow → ShipmentRow) where
  -- A pair of updates that keeps the ids and takes each legal pair to a legal pair.
  pub update-IsConsistent :
      ((o : OrderRow) → order_key (f o) ≡ order_key o)
      → ((s : ShipmentRow) → shipment_key (g s) ≡ shipment_key s)
      → ((k : ℕ) (o : OrderRow) (s : ShipmentRow)
          → find order_key k orders ≡ some o
          → find shipment_key k shipments ≡ some s
          → is_legal_pair o s ≡ true
          → is_legal_pair (if p o then f o else o) (if q s then g s else s) ≡ true)
      → IsConsistent orders shipments next
      → IsConsistent (update p f orders) (update q g shipments) next
  update-IsConsistent ff gg keep c = record {
    orders_keyed = update-IsKeyed order_key p f orders ff c.orders_keyed;
    shipments_keyed = update-IsKeyed shipment_key q g shipments gg c.shipments_keyed;
    orders_below = λ k h. rw (find-update order_key k p f orders ff, c.orders_below k h);
    shipments_below =
        λ k h. rw (find-update shipment_key k q g shipments gg, c.shipments_below k h);
    legal = λ k o s eo es.
        let (o0, fo, ro) =
          set_if-some p f (find order_key k orders) o
            (rw (find-update order_key k p f orders ff) at eo) in
        let (s0, fs, rs) =
          set_if-some q g (find shipment_key k shipments) s
            (rw (find-update shipment_key k q g shipments gg) at es) in
        rw (← ro, ← rs) (keep k o0 s0 fo fs (c.legal k o0 s0 fo fs));
  }

module _ {orders : List OrderRow} {shipments : List ShipmentRow} {next : ℕ} (p : OrderRow → Bool)
    (f : OrderRow → OrderRow) where
  -- The same for an update of the orders alone.
  pub orders-IsConsistent :
      ((o : OrderRow) → order_key (f o) ≡ order_key o)
      → ((k : ℕ) (o : OrderRow) (s : ShipmentRow)
          → find order_key k orders ≡ some o
          → find shipment_key k shipments ≡ some s
          → is_legal_pair o s ≡ true
          → is_legal_pair (if p o then f o else o) s ≡ true)
      → IsConsistent orders shipments next
      → IsConsistent (update p f orders) shipments next
  orders-IsConsistent ff keep c = record {
    orders_keyed = update-IsKeyed order_key p f orders ff c.orders_keyed;
    shipments_keyed = c.shipments_keyed;
    orders_below = λ k h. rw (find-update order_key k p f orders ff, c.orders_below k h);
    shipments_below = c.shipments_below;
    legal = λ k o s eo es.
        let (o0, fo, ro) =
          set_if-some p f (find order_key k orders) o
            (rw (find-update order_key k p f orders ff) at eo) in
        rw (← ro) (keep k o0 s fo es (c.legal k o0 s fo es));
  }
