-- ===== src/Checkout/Confirm/Frames.antt =====
-- Which tables the parts of `confirmCheckout` write.
use commerce_core_api.Common.{ℕ, suc, ◌+◌, ◌≡◌, map, refl, Option, List, [], ◌∷◌, ◌++◌, Text, arith}
use commerce_core_api.Common.Error.{Commits, Commits-map, Commits-bind}
use commerce_core_api.Database.{Database}
use commerce_core_api.Database.Checkout.{SessionRow, UserRow, WarehouseRow}
use commerce_core_api.Database.Order.{OrderRow}
use commerce_core_api.Images.{ImageRef}
use commerce_core_api.Product.{reduce_stock, reduce_variant_stock}
use commerce_core_api.Checkout.Guards.{
  CheckoutItem, Totals, assert_checkout_ready, assert_items_valid,
}
use commerce_core_api.Checkout.Repo.{mark_session_converted, clear_cart_by_user_id}
use commerce_core_api.Checkout.Confirm.{
  create_order, insert_order_items, insert_shipment, place_order, order_item, new_order,
  new_shipment, wanted,
}
use commerce_core_api.Checkout.Session.{thirty_minutes}

-- The checks write nothing.
pub assert_checkout_ready_frame :
    (s : SessionRow) (db : Database) → Commits (λ db'. db' ≡ db) (assert_checkout_ready s db)
unfolding assert_checkout_ready
assert_checkout_ready_frame s db = ground arith

pub assert_items_valid_frame :
    (items : List CheckoutItem) (db : Database)
    → Commits (λ db'. db' ≡ db) (assert_items_valid items db)
unfolding assert_items_valid
assert_items_valid_frame [] db = refl
assert_items_valid_frame (i ∷ items) db = ground (arith, assert_items_valid_frame items db)

-- `db'` differs from `db` in product_variants alone.
abbrev pub VariantsOnly : Database → Database → Type 0
VariantsOnly db db' = db' ≡ record db { variants = db'.variants }

reduce_variant_stock_frame :
    (k qty : ℕ) (db : Database) → Commits (VariantsOnly db) (reduce_variant_stock k qty db)
unfolding reduce_variant_stock
reduce_variant_stock_frame k qty db = ground arith

pub reduce_stock_frame :
    (items : List (ℕ × ℕ)) (db : Database) → Commits (VariantsOnly db) (reduce_stock items db)
unfolding reduce_stock
reduce_stock_frame [] db = refl
reduce_stock_frame ((k, qty) ∷ items) db =
    Commits-bind (VariantsOnly db) (VariantsOnly db) (reduce_variant_stock k qty)
      (λ _. reduce_stock items) db (reduce_variant_stock_frame k qty db)
      (λ u db' e h.
        Commits-map (VariantsOnly db') (VariantsOnly db) (reduce_stock items db')
          (λ db'' g. rw (g, h) refl) (reduce_stock_frame items db'))

-- The order that a conversion inserts, under the next id.
abbrev pub placed_order :
    ℕ → SessionRow → Totals → UserRow → WarehouseRow → Text → ℕ → Database → OrderRow
placed_order user_id s t user warehouse code now db =
    new_order db.next_order_id user_id s t user warehouse code (now + thirty_minutes)

module _ (image : CheckoutItem → Option ImageRef) (user_id : ℕ) (s : SessionRow) (t : Totals)
    (items : List CheckoutItem) (user : UserRow) (warehouse : WarehouseRow) (code : Text)
    (now : ℕ) where
  -- The database with the rows that a conversion inserts.
  abbrev pub inserted : Database → Database
  inserted db = record db {
    orders = db.orders ++ (placed_order user_id s t user warehouse code now db ∷ []);
    shipments = db.shipments ++ (new_shipment db.next_order_id s ∷ []);
    order_items = db.order_items ++ map (λ i. order_item db.next_order_id (image i) i) items;
    next_order_id = suc db.next_order_id;
  }

  -- What a conversion leaves in the tables of orders.
  abbrev pub HasPlaced : Database → Database → Type 0
  HasPlaced db db' =
      (db'.orders ≡ (inserted db).orders)
      × (db'.shipments ≡ (inserted db).shipments)
      × (db'.order_items ≡ (inserted db).order_items)
      × (db'.next_order_id ≡ suc db.next_order_id)

  pub place_order-HasPlaced :
      (db : Database)
      → Commits (HasPlaced db) (place_order image user_id s t items user warehouse code now db)
  unfolding place_order create_order insert_order_items insert_shipment mark_session_converted
      clear_cart_by_user_id
  place_order-HasPlaced db = ground (arith, reduce_stock_frame (wanted items) (inserted db))
