-- ===== src/Checkout/Confirm/Amounts.antt =====
-- The amounts of the order that a conversion inserts.
use commerce_core_api.Common.{
  ℕ, ◌≡◌, ◌∙◌, ap, sym, refl, Bool, false, Option, none, some, List, [], ◌∷◌, ◌++◌, map, Text,
  arith, ==_refl, ==→eq, ◌==◌,
}
use commerce_core_api.Common.Error.{Commits, Commits-map}
use commerce_core_api.Common.Int.{ℤ, pos, ◌+ℤ◌, ◌*ℤ◌}
use commerce_core_api.Common.Table.{
  find, IsKeyed, matches, select, find-append, find_by-holds, find-find_by,
}
use commerce_core_api.Database.{Database}
use commerce_core_api.Database.Order.{OrderRow, OrderItemRow}
use commerce_core_api.Database.Checkout.{SessionRow}
use commerce_core_api.Images.{ImageRef}
use commerce_core_api.Order.Repo.{order_key}
use commerce_core_api.Order.Lifecycle.{IsConsistentDb}
use commerce_core_api.Payment.Midtrans.Amounts.{items_sum}
use commerce_core_api.Checkout.Guards.{CheckoutItem}
use commerce_core_api.Checkout.Repo.{session_key}
use commerce_core_api.Checkout.Session.{subtotal_of}
use commerce_core_api.Checkout.Pricing.{IsPriced, IsPricedAt, session_value}
use commerce_core_api.Checkout.Confirm.{confirm_checkout, order_item}
use commerce_core_api.Checkout.Confirm.Frames.{HasPlaced, place_order-HasPlaced, placed_order}
use commerce_core_api.Checkout.Confirm.Rule.{confirm_checkout_rule, is_convertible}
use commerce_core_api.Checkout.Confirm.Orders.{ready_totals}

-- the rows of one order
abbrev pub of_order : ℕ → OrderItemRow → Bool
of_order order_id i = i.order_id == order_id

select-append :
    (p : OrderItemRow → Bool) (xs ys : List OrderItemRow)
    → matches p xs ≡ false
    → select p (xs ++ ys) ≡ select p ys
select-append p [] ys h = refl
select-append p (x ∷ xs) ys h = ground (arith, select-append p xs ys)

items_sum-order_item :
    (k : ℕ) (image : CheckoutItem → Option ImageRef) (acc : ℤ) (items : List CheckoutItem)
    → items_sum acc (select (of_order k) (map (λ i. order_item k (image i) i) items))
      ≡ subtotal_of acc items
unfolding items_sum subtotal_of
items_sum-order_item k image acc [] = refl
items_sum-order_item k image acc (i ∷ t) =
    rw (==_refl k) (items_sum-order_item k image (acc +ℤ i.price *ℤ pos i.quantity) t)

-- What is known of the order under the id `k`: its total is its subtotal and shipping cost, and its
-- subtotal is the sum over its items.
abbrev pub IsBalancedOrder : Database → Option OrderRow → Type 0
IsBalancedOrder db none = ⊥
IsBalancedOrder db (some o) =
    (o.subtotal +ℤ o.shipping_cost ≡ o.total)
    × (items_sum (pos 0) (select (of_order o.id) db.order_items) ≡ o.subtotal)

-- Session ids are distinct, and the subtotal of a session, where there is one, is that of its items.
pub record HasSubtotals (db : Database) : Type 0 where
  pub sessions_keyed : IsKeyed session_key db.sessions
  pub subtotals :
      (k : ℕ) (s : SessionRow) (x : ℤ)
      → find session_key k db.sessions ≡ some s
      → s.subtotal ≡ some x
      → x ≡ session_value db k

priced_subtotal :
    (s : SessionRow) (x value : ℤ) → s.subtotal ≡ some x → IsPricedAt value s → x ≡ value
priced_subtotal s x value e p = ground arith

pub IsPriced-HasSubtotals : (db : Database) → IsPriced db → HasSubtotals db
IsPriced-HasSubtotals db c = record {
  sessions_keyed = c.sessions_keyed;
  subtotals = λ k s x e at. priced_subtotal s x (session_value db k) at (c.priced k s e);
}

-- In a consistent database whose sessions have distinct ids and, where they have a subtotal, the one of
-- their items, and which has no items yet
-- under the next order id, the order of a conversion that commits is there under that id, its total is
-- its subtotal and shipping cost, and its subtotal is the sum over its own order items.
pub confirm_checkout-IsBalancedOrder :
    (image : CheckoutItem → Option ImageRef) (user_id session_id : ℕ) (code : Text) (now : ℕ)
    (db : Database)
    → IsConsistentDb db
    → HasSubtotals db
    → matches (of_order db.next_order_id) db.order_items ≡ false
    → Commits
        (λ db'. IsBalancedOrder db' (find order_key db.next_order_id db'.orders))
        (confirm_checkout image user_id session_id code now db)
confirm_checkout-IsBalancedOrder image user_id session_id code now db c priced fresh =
    let Q = λ (db' : Database). IsBalancedOrder db' (find order_key db.next_order_id db'.orders) in
    confirm_checkout_rule image user_id session_id code now db Q (λ s t items user warehouse h.
      let (sub, ship, tot, sum, cost) = ready_totals s t db h.ready in
      let here =
        find-find_by session_key (is_convertible user_id session_id) db.sessions
          priced.sessions_keyed h.session_found in
      let id : s.id ≡ session_id = ground (
        arith,
        find_by-holds (is_convertible user_id session_id) db.sessions h.session_found,
        ==→eq s.id session_id,
      ) in
      let value : t.subtotal ≡ subtotal_of (pos 0) items =
        priced.subtotals s.id s t.subtotal here sub
        ∙ ap (session_value db) id
        ∙ ap (subtotal_of (pos 0)) (sym h.items_found) in
      let o = placed_order user_id s t user warehouse code now db in
      let found : find order_key db.next_order_id (db.orders ++ (o ∷ [])) ≡ some o = ground (
        arith,
        find-append order_key db.next_order_id o db.orders,
        c.orders_below db.next_order_id,
        ==_refl db.next_order_id,
      ) in
      Commits-map (HasPlaced image user_id s t items user warehouse code now db) Q _
        (λ db' p.
          let rows : items_sum (pos 0) (select (of_order db.next_order_id) db'.order_items)
              ≡ t.subtotal =
            rw
              (
                p.2,
                select-append (of_order db.next_order_id) db.order_items
                    (map (λ i. order_item db.next_order_id (image i) i) items) fresh,
              )
              (items_sum-order_item db.next_order_id image (pos 0) items ∙ sym value) in
          rw (p.0, found) (sum, rows))
        (place_order-HasPlaced image user_id s t items user warehouse code now db))
