-- ===== src/Checkout/Confirm.antt =====
-- `confirmCheckout` of src/modules/user/checkout/checkout.user.service.ts, with
-- `mapSessionToCreateOrderInput` of src/modules/user/order/order.user.mapper.ts, `generateOrderCode` of
-- order.user.utils.ts and the inserts of order.user.repo.ts.
pub mod Frames
pub mod Rule
pub mod Orders
pub mod Amounts
pub mod Once
use commerce_core_api.Common.{
  ℕ, suc, ◌+◌, Bool, true, false, not, ◌&&◌, ◌||◌, Option, none, some, List, [], ◌∷◌, ◌++◌, map,
  Text, codes, text_eq, length, is_some, ltb, ◌==◌, if◌then◌else◌,
}
use commerce_core_api.Common.Int.{ℤ, pos, ◌+ℤ◌, ltb_ℤ, eqb_ℤ}
use commerce_core_api.Common.Table.{find, find_by}
use commerce_core_api.Common.Error.{
  Tx, gets, modify, throw_if, or_throw, bad_request, not_found, internal, pure, ◌>>=◌, ◌>>◌,
}
use commerce_core_api.Database.{Database}
use commerce_core_api.Database.Checkout.{SessionRow, UserRow, WarehouseRow}
use commerce_core_api.Database.Order.{
  OrderRow, OrderItemRow, ShipmentRow, OrderStatus, OrderPaymentStatus, OrderShipmentStatus,
}
use commerce_core_api.Images.{ProductImages, ImageRef, find_best_image}
use commerce_core_api.Order.Repo.{has_code}
use commerce_core_api.Product.{reduce_stock}
use commerce_core_api.Checkout.Guards.{
  CheckoutItem, Totals, assert_checkout_ready, assert_items_valid,
}
use commerce_core_api.Checkout.Repo.{
  get_checkout_session_for_update, get_checkout_session_items, mark_session_converted,
  clear_cart_by_user_id,
}
use commerce_core_api.Checkout.Session.{thirty_minutes}

-- `ORD-${date}-${random}`
unfoldable pub generate_order_code : Text → Text → Text
generate_order_code date random = codes "ORD-" ++ (date ++ (codes "-" ++ random))

-- A field that `assertCheckoutReady` has shown to be there.
abbrev pub text_or_empty : Option Text → Text
text_or_empty none = []
text_or_empty (some s) = s

-- The row that `createOrder` inserts.
abbrev pub new_order : ℕ → ℕ → SessionRow → Totals → UserRow → WarehouseRow → Text → ℕ → OrderRow
new_order id user_id s t user warehouse order_code expires_at = record {
  id = id;
  user_id = user_id;
  email = user.email;
  order_code = order_code;
  status = OrderStatus.pending;
  payment_status = OrderPaymentStatus.unpaid;
  subtotal = t.subtotal;
  shipping_cost = t.shipping_cost;
  total = t.total;
  recipient_name = text_or_empty s.recipient_name;
  phone = text_or_empty s.phone;
  address_line = text_or_empty s.address_line;
  province_name = text_or_empty s.province_name;
  city_name = text_or_empty s.city_name;
  district_name = text_or_empty s.district_name;
  postal_code = s.postal_code;
  origin_name = warehouse.name;
  origin_province_name = warehouse.shipping_province_name;
  origin_city_name = warehouse.shipping_city_name;
  origin_district_name = warehouse.shipping_district_name;
  origin_postal_code = warehouse.postal_code;
  note = none;
  expires_at = expires_at;
  paid_at = none;
  cancelled_at = none;
  completed_at = none;
  snap_token = none;
  snap_redirect_url = none;
}

-- `createOrder`, with the unique index on order_code and the CHECK of the totals
unfoldable pub create_order :
    ℕ → SessionRow → Totals → UserRow → WarehouseRow → Text → ℕ → Tx Database OrderRow
create_order user_id s t user warehouse order_code expires_at = do
  taken ← gets λ db. find_by (has_code order_code) db.orders
  throw_if (is_some taken) internal
  throw_if (not (eqb_ℤ t.total (t.subtotal +ℤ t.shipping_cost))) internal
  id ← gets λ db. db.next_order_id
  let order = new_order id user_id s t user warehouse order_code expires_at
  modify λ db. record db { orders = db.orders ++ (order ∷ []); next_order_id = suc id }
  pure order

-- `enrichItemsWithImages`, for one item; in a test run there are no pictures.
abbrev pub image_of :
    Bool → (Text → Text) → (ℕ → Option ProductImages) → CheckoutItem → Option ImageRef
image_of is_test lower image_map item = if is_test then none else elim (image_map item.product_id) [
  | none ↦ none
  | some pi ↦ elim (find_best_image lower pi.images item.option_snapshot) [
    | none ↦ pi.fallback
    | some best ↦ some best
  ]
]

abbrev pub key_of : Option ImageRef → Option Text
key_of none = none
key_of (some r) = some r.image_key

abbrev pub id_of : Option ImageRef → Option ℕ
id_of none = none
id_of (some r) = some r.image_id

abbrev pub order_item : ℕ → Option ImageRef → CheckoutItem → OrderItemRow
order_item order_id image i = record {
  order_id = order_id;
  variant_id = i.variant_id;
  product_id = i.product_id;
  product_name = i.product_name;
  slug = i.slug;
  price = i.price;
  quantity = i.quantity;
  weight = i.weight;
  image_id = id_of image;
  image_key = key_of image;
  option_snapshot = elim i.option_snapshot [ none ↦ some [] | some os ↦ some os ];
}

-- the CHECK constraints of order_items
abbrev pub is_storable : CheckoutItem → Bool
is_storable i = ltb 0 i.quantity && not (ltb_ℤ i.price (pos 0)) && not (ltb_ℤ i.weight (pos 0))

abbrev pub all_storable : List CheckoutItem → Bool
all_storable [] = true
all_storable (i ∷ t) = is_storable i && all_storable t

unfoldable pub insert_order_items :
    ℕ → (CheckoutItem → Option ImageRef) → List CheckoutItem → Tx Database (Unit {0})
insert_order_items order_id image items = do
  throw_if (not (all_storable items)) internal
  modify λ db. record db {
    order_items = db.order_items ++ map (λ i. order_item order_id (image i) i) items;
  }

abbrev pub new_shipment : ℕ → SessionRow → ShipmentRow
new_shipment order_id s = record {
  order_id = order_id;
  courier_code = text_or_empty s.courier_code;
  courier_name = text_or_empty s.courier_name;
  courier_service = text_or_empty s.courier_service;
  courier_description = s.courier_description;
  shipping_etd = text_or_empty s.shipping_etd;
  tracking_number = none;
  status = OrderShipmentStatus.pending;
  shipped_at = none;
  delivered_at = none;
}

unfoldable pub insert_shipment : ℕ → SessionRow → Tx Database (Unit {0})
insert_shipment order_id s =
    modify λ db. record db { shipments = db.shipments ++ (new_shipment order_id s ∷ []) }

abbrev pub user_key : UserRow → ℕ
user_key u = u.id

-- `SELECT * FROM warehouses LIMIT 1`
abbrev pub first_row : {R : Type 0} → List R → Option R
first_row [] = none
first_row (r ∷ t) = some r

-- `!warehouse || !warehouse.shipping_district_id`
abbrev pub configured : Option WarehouseRow → Option WarehouseRow
configured none = none
configured (some w) = if w.shipping_district_id == 0 then none else some w

abbrev pub wanted : List CheckoutItem → List (ℕ × ℕ)
wanted = map λ i. (i.variant_id, i.quantity)

module _ (image : CheckoutItem → Option ImageRef) where
  -- The writes, once every check has passed. Returns the order's code.
  unfoldable pub place_order :
      ℕ
      → SessionRow
      → Totals
      → List CheckoutItem
      → UserRow
      → WarehouseRow
      → Text
      → ℕ
      → Tx Database Text
  place_order user_id s t items user warehouse order_code now = do
    order ← create_order user_id s t user warehouse order_code (now + thirty_minutes)
    insert_order_items order.id image items
    insert_shipment order.id s
    reduce_stock (wanted items)
    mark_session_converted s.id now
    clear_cart_by_user_id user_id
    pure order.order_code

  unfoldable pub confirm_checkout : ℕ → ℕ → Text → ℕ → Tx Database Text
  confirm_checkout user_id session_id order_code now = do
    found ← get_checkout_session_for_update session_id user_id
    session ← or_throw found (bad_request "Session already used or invalid")
    throw_if (ltb session.expires_at now) (bad_request "Checkout session expired")
    totals ← assert_checkout_ready session
    items ← get_checkout_session_items session_id
    throw_if (length items == 0) (bad_request "No items")
    assert_items_valid items
    found_user ← gets λ db. find user_key user_id db.users
    user ← or_throw found_user (not_found "User not found")
    found_warehouse ← gets λ db. first_row db.warehouses
    warehouse ←
        or_throw (configured found_warehouse) (bad_request "Warehouse is not properly configured")
    place_order user_id session totals items user warehouse order_code now
