-- ===== src/Checkout/Confirm/Orders.antt =====
-- The order that a conversion inserts.
use commerce_core_api.Common.{
  ℕ, suc, ◌≡◌, refl, true, Option, some, List, [], ◌∷◌, ◌++◌, Text, arith, ==→eq,
}
use commerce_core_api.Common.Error.{Commits, Commits-map, ok}
use commerce_core_api.Common.Int.{pos, ◌+ℤ◌, ◌≤ℤ◌, eqb_ℤ→eq}
use commerce_core_api.Common.Table.{find-append, append-IsKeyed}
use commerce_core_api.Database.{Database}
use commerce_core_api.Database.Order.{OrderRow, ShipmentRow}
use commerce_core_api.Database.Checkout.{SessionRow}
use commerce_core_api.Images.{ImageRef}
use commerce_core_api.Order.Repo.{order_key, shipment_key}
use commerce_core_api.Order.Lifecycle.{IsConsistent, IsConsistentDb, is_legal_pair}
use commerce_core_api.Checkout.Guards.{CheckoutItem, Totals, assert_checkout_ready}
use commerce_core_api.Checkout.Confirm.{confirm_checkout, new_shipment}
use commerce_core_api.Checkout.Confirm.Frames.{HasPlaced, place_order-HasPlaced, placed_order}
use commerce_core_api.Checkout.Confirm.Rule.{confirm_checkout_rule}

append-IsConsistent :
    (o : OrderRow) (s : ShipmentRow) {orders : List OrderRow} {shipments : List ShipmentRow}
    (next : ℕ)
    → o.id ≡ next
    → s.order_id ≡ next
    → is_legal_pair o s ≡ true
    → IsConsistent orders shipments next
    → IsConsistent (orders ++ (o ∷ [])) (shipments ++ (s ∷ [])) (suc next)
append-IsConsistent o s {orders} {shipments} next oid sid new c =
    let no_order = c.orders_below next (omega arith) in
    let no_shipment = c.shipments_below next (omega arith) in
    record {
      orders_keyed = append-IsKeyed order_key o orders (rw oid no_order) c.orders_keyed;
      shipments_keyed =
          append-IsKeyed shipment_key s shipments (rw sid no_shipment) c.shipments_keyed;
      orders_below = λ k h. ground (arith, find-append order_key k o orders, c.orders_below k);
      shipments_below =
          λ k h. ground (arith, find-append shipment_key k s shipments, c.shipments_below k);
      legal = λ k o' s' eo es. ground (
        arith,
        find-append order_key k o orders,
        find-append shipment_key k s shipments,
        c.legal k o' s',
        ==→eq o.id k,
        ==→eq s.order_id k,
        no_order,
        no_shipment,
      );
    }

-- In a consistent database, a conversion that commits keeps orders and shipments in legal states and
-- their ids distinct.
pub confirm_checkout-IsConsistent :
    (image : CheckoutItem → Option ImageRef) (user_id session_id : ℕ) (code : Text) (now : ℕ)
    (db : Database)
    → IsConsistentDb db
    → Commits IsConsistentDb (confirm_checkout image user_id session_id code now db)
confirm_checkout-IsConsistent image user_id session_id code now db c =
    confirm_checkout_rule image user_id session_id code now db IsConsistentDb
      (λ s t items user warehouse h.
        Commits-map (HasPlaced image user_id s t items user warehouse code now db) IsConsistentDb _
          (λ db' p.
            rw (p.0, p.1, p.3)
              (append-IsConsistent (placed_order user_id s t user warehouse code now db)
                (new_shipment db.next_order_id s) db.next_order_id refl refl refl c))
          (place_order-HasPlaced image user_id s t items user warehouse code now db))

-- What the assertion on the session has checked of its totals.
pub ready_totals :
    (s : SessionRow) (t : Totals) (db : Database)
    → assert_checkout_ready s db ≡ ok (t, db)
    → (s.subtotal ≡ some t.subtotal)
      × (s.shipping_cost ≡ some t.shipping_cost)
      × (s.total ≡ some t.total)
      × (t.subtotal +ℤ t.shipping_cost ≡ t.total)
      × (pos 0 ≤ℤ t.shipping_cost)
unfolding assert_checkout_ready
ready_totals s t db h = ground (arith, eqb_ℤ→eq (t.subtotal +ℤ t.shipping_cost) t.total)
