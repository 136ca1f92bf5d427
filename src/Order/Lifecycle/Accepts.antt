-- ===== src/Order/Lifecycle/Accepts.antt =====
-- Exactly when the handlers of src/modules/admin/order/order.service.ts and of
-- src/modules/user/order/order.user.service.ts succeed in a consistent database.
use commerce_core_api.Common.{
  ℕ, ◌≡◌, refl, Bool, true, false, ◌&&◌, Option, none, some, List, [], ◌∷◌, Text, arith,
  if◌then◌else◌, Option-cases, Bool-cases, inl, inr, ◌==◌,
}
use commerce_core_api.Common.Error.{Result, ok, err}
use commerce_core_api.Common.Table.{find, matches}
use commerce_core_api.Database.{Database}
use commerce_core_api.Database.Order.{
  OrderRow, ShipmentRow, OrderStatus, OrderPaymentStatus, OrderShipmentStatus, order_is, payment_is,
  shipment_is,
}
use commerce_core_api.Order.Repo.{order_key, shipment_key, has_shipment}
use commerce_core_api.Order.Admin.{mark_as_shipped, mark_as_delivered}
use commerce_core_api.Order.Lifecycle.{IsConsistentDb}

abbrev pub succeeds : {A : Type 0} → Result A → Bool
succeeds (ok a) = true
succeeds (err e) = false

-- An order, with its shipment, that has the given status words.
abbrev pub is_at : OrderStatus → OrderPaymentStatus → Option OrderRow → Bool
is_at status payment none = false
is_at status payment (some o) = order_is o.status status && payment_is o.payment_status payment

abbrev pub has_row : Option ShipmentRow → Bool
has_row none = false
has_row (some s) = true

-- The order of a code, if it is the user's.
abbrev pub own : ℕ → Option OrderRow → Option OrderRow
own user_id none = none
own user_id (some o) = if o.user_id == user_id then some o else none

abbrev pub shipment_for : Option OrderRow → Database → Option ShipmentRow
shipment_for none db = none
shipment_for (some o) db = find shipment_key o.id db.shipments

found-matches :
    (k : ℕ) (status : OrderShipmentStatus) (s : ShipmentRow) (t : List ShipmentRow)
    → find shipment_key k t ≡ some s
    → shipment_is s.status status ≡ true
    → matches (has_shipment k status) t ≡ true
found-matches k status s [] e h = cc
found-matches k status s (x ∷ t) e h = elim (Bool-cases (x.order_id == k)) [
  | inl c ↦ ground arith
  | inr c ↦ ground (arith, found-matches k status s t)
]

-- In a consistent database, shipping succeeds exactly for an order that is pending and paid and has a shipment.
pub mark_as_shipped-succeeds :
    (order_id : ℕ) (tracking_number : Text) (now : ℕ) (db : Database)
    → IsConsistentDb db
    → succeeds (mark_as_shipped order_id tracking_number now db) ≡ (
        has_row (find shipment_key order_id db.shipments)
        && is_at OrderStatus.pending OrderPaymentStatus.paid (find order_key order_id db.orders))
unfolding mark_as_shipped
mark_as_shipped-succeeds order_id tracking_number now db c =
    elim (Option-cases (find shipment_key order_id db.shipments)) [
      | inl es ↦ rw es refl
      | inr (s, es) ↦ elim (Option-cases (find order_key order_id db.orders)) [
        | inl eo ↦ ground arith
        | inr (o, eo) ↦ ground (
          arith,
          c.legal order_id o s eo es,
          found-matches order_id OrderShipmentStatus.pending s db.shipments es,
        )
      ]
    ]

-- In a consistent database, delivery by an administrator succeeds exactly for an order that is in
-- processing and paid and has a shipment.
pub mark_as_delivered-succeeds :
    (order_id now : ℕ) (db : Database)
    → IsConsistentDb db
    → succeeds (mark_as_delivered order_id now db) ≡ (
        has_row (find shipment_key order_id db.shipments)
        && is_at OrderStatus.processing OrderPaymentStatus.paid (find order_key order_id db.orders))
unfolding mark_as_delivered
mark_as_delivered-succeeds order_id now db c =
    elim (Option-cases (find shipment_key order_id db.shipments)) [
      | inl es ↦ rw es refl
      | inr (s, es) ↦ elim (Option-cases (find order_key order_id db.orders)) [
        | inl eo ↦ ground arith
        | inr (o, eo) ↦ ground (
          arith,
          c.legal order_id o s eo es,
          found-matches order_id OrderShipmentStatus.shipped s db.shipments es,
        )
      ]
    ]
