-- ===== src/Checkout/Repo.antt =====
-- `class CheckoutUserRepo` of src/modules/user/checkout/checkout.user.repo.ts, `clearCartByUserId` of
-- src/modules/cart/cart.repo.ts, and `buildAddressSnapshot` of checkout.user.mapper.ts.
use commerce_core_api.Common.{
  ℕ, suc, Bool, false, not, ◌&&◌, Option, none, some, List, [], ◌∷◌, ◌++◌, map, Text, is_some, leb,
  ◌==◌,
}
use commerce_core_api.Common.Int.{ℤ}
use commerce_core_api.Common.Error.{Tx, gets, modify, throw_if, bad_request, pure, ◌>>=◌, ◌>>◌}
use commerce_core_api.Common.Table.{find, find_by, update, matches, select}
use commerce_core_api.Database.{Database}
use commerce_core_api.Database.Product.{OptionSnapshot, ProductRow, VariantRow}
use commerce_core_api.Database.Checkout.{
  CartRow, CartItemRow, SessionRow, SessionItemRow, AddressRow,
}
use commerce_core_api.Product.{variant_key}
use commerce_core_api.Checkout.Guards.{CheckoutItem}

abbrev pub session_key : SessionRow → ℕ
session_key s = s.id

abbrev pub product_key : ProductRow → ℕ
product_key p = p.id

abbrev pub cart_key : CartRow → ℕ
cart_key c = c.id

abbrev pub update_sessions : (SessionRow → Bool) → (SessionRow → SessionRow) → Database → Database
update_sessions p f db = record db { sessions = update p f db.sessions }

abbrev pub owns_cart : ℕ → Option CartRow → Bool
owns_cart user_id none = false
owns_cart user_id (some c) = elim c.user_id [ none ↦ false | some u ↦ u == user_id ]

-- `CartItemRow` of checkout.user.types.ts: a cart item joined with its variant and product
pub record CartLine : Type 0 where
  pub variant_id : ℕ
  pub product_id : ℕ
  pub slug : Text
  pub quantity : ℕ
  pub price : ℤ
  pub weight : ℤ
  pub product_name : Text
  pub option_snapshot : Option (List OptionSnapshot)
  pub stock : ℕ

abbrev pub cart_line : CartItemRow → VariantRow → ProductRow → CartLine
cart_line ci v p = record {
  variant_id = ci.variant_id;
  product_id = p.id;
  slug = p.slug;
  quantity = ci.quantity;
  price = v.price;
  weight = v.weight;
  product_name = p.name;
  option_snapshot = v.option_snapshot;
  stock = v.stock;
}

abbrev pub join_cart_item : Database → CartItemRow → List CartLine
join_cart_item db ci = elim (find variant_key ci.variant_id db.variants) [
  | none ↦ []
  | some v ↦ elim (find product_key v.product_id db.products) [
    | none ↦ []
    | some p ↦ cart_line ci v p ∷ []
  ]
]

abbrev pub join_cart_items : Database → List CartItemRow → List CartLine
join_cart_items db [] = []
join_cart_items db (ci ∷ t) = join_cart_item db ci ++ join_cart_items db t

unfoldable pub get_cart_items : ℕ → Tx Database (List CartLine)
get_cart_items user_id = gets λ db.
    join_cart_items db
      (select (λ ci. owns_cart user_id (find cart_key ci.cart_id db.carts)) db.cart_items)

-- The row that `insertCheckoutSessionItems` makes of a cart item.
abbrev pub session_item : ℕ → CartLine → SessionItemRow
session_item session_id l = record {
  checkout_session_id = session_id;
  variant_id = l.variant_id;
  product_id = l.product_id;
  slug = l.slug;
  product_name = l.product_name;
  price = l.price;
  quantity = l.quantity;
  weight = l.weight;
  option_snapshot = l.option_snapshot;
}

unfoldable pub get_checkout_session : ℕ → ℕ → Tx Database (Option SessionRow)
get_checkout_session session_id user_id =
    gets λ db. find_by (λ s. s.id == session_id && s.user_id == user_id) db.sessions

-- the join of `getCheckoutSessionItems` and `getCheckoutSessionItemsForUpdate`
abbrev pub checkout_item : SessionItemRow → VariantRow → ProductRow → CheckoutItem
checkout_item i v p = record {
  variant_id = i.variant_id;
  product_name = i.product_name;
  product_id = i.product_id;
  price = i.price;
  quantity = i.quantity;
  weight = i.weight;
  stock = v.stock;
  variant_status = v.status;
  product_status = p.status;
  slug = i.slug;
  option_snapshot = i.option_snapshot;
}

abbrev pub join_session_item : Database → SessionItemRow → List CheckoutItem
join_session_item db i = elim (find variant_key i.variant_id db.variants) [
  | none ↦ []
  | some v ↦ elim (find product_key i.product_id db.products) [
    | none ↦ []
    | some p ↦ checkout_item i v p ∷ []
  ]
]

abbrev pub join_session_items : Database → List SessionItemRow → List CheckoutItem
join_session_items db [] = []
join_session_items db (i ∷ t) = join_session_item db i ++ join_session_items db t

abbrev pub is_item_of_session : ℕ → SessionItemRow → Bool
is_item_of_session session_id i = i.checkout_session_id == session_id

unfoldable pub get_checkout_session_items : ℕ → Tx Database (List CheckoutItem)
get_checkout_session_items session_id =
    gets λ db. join_session_items db (select (is_item_of_session session_id) db.session_items)

unfoldable pub get_checkout_items_weight : ℕ → Tx Database (List SessionItemRow)
get_checkout_items_weight session_id =
    gets λ db. select (is_item_of_session session_id) db.session_items

abbrev pub clear_shipping : SessionRow → SessionRow
clear_shipping s = record s {
  courier_code = none;
  courier_name = none;
  courier_service = none;
  courier_description = none;
  shipping_cost = none;
  shipping_etd = none;
  total = none;
  subtotal = none;
}

abbrev pub has_session_id : ℕ → SessionRow → Bool
has_session_id session_id s = s.id == session_id

unfoldable pub clear_shipping_selection : ℕ → Tx Database (Unit {0})
clear_shipping_selection session_id =
    modify (update_sessions (has_session_id session_id) clear_shipping)

abbrev pub is_unused : SessionRow → Bool
is_unused s = not (is_some s.converted_at) && not (is_some s.revoked_at)

-- `FOR UPDATE` only adds a lock.
unfoldable pub get_checkout_session_for_update : ℕ → ℕ → Tx Database (Option SessionRow)
get_checkout_session_for_update session_id user_id =
    gets λ db. find_by (λ s. s.id == session_id && s.user_id == user_id && is_unused s) db.sessions

unfoldable pub get_default_address : ℕ → Tx Database (Option AddressRow)
get_default_address user_id =
    gets λ db. find_by (λ a. a.user_id == user_id && a.is_default) db.addresses

unfoldable pub get_user_address : ℕ → ℕ → Tx Database (Option AddressRow)
get_user_address user_id address_id =
    gets λ db. find_by (λ a. a.id == address_id && a.user_id == user_id) db.addresses

-- `updateCheckoutSessionAddress`, and `setCheckoutSessionAddressSnapshot` of a `buildAddressSnapshot`
abbrev pub set_address : AddressRow → SessionRow → SessionRow
set_address a s = record s {
  address_id = some a.id;
  recipient_name = some a.recipient_name;
  phone = some a.phone;
  address_line = some a.address_line;
  province_name = some a.province_name;
  city_name = some a.city_name;
  district_name = some a.district_name;
  postal_code = a.postal_code;
  shipping_city_id = some a.shipping_city_id;
  shipping_district_id = a.shipping_district_id;
}

unfoldable pub update_checkout_session_address : ℕ → AddressRow → Tx Database (Unit {0})
update_checkout_session_address session_id address =
    modify (update_sessions (has_session_id session_id) (set_address address))

abbrev pub set_shipping : Text → Text → Text → Text → ℤ → Text → ℤ → ℤ → SessionRow → SessionRow
set_shipping code name service description cost etd subtotal total s = record s {
  courier_code = some code;
  courier_name = some name;
  courier_service = some service;
  courier_description = some description;
  shipping_cost = some cost;
  shipping_etd = some etd;
  subtotal = some subtotal;
  total = some total;
}

-- `replaceSessionItems`
unfoldable pub replace_session_items : ℕ → List CartLine → Tx Database (Unit {0})
replace_session_items session_id items = modify λ db. record db {
  session_items =
      select (λ i. not (is_item_of_session session_id i)) db.session_items
      ++ map (session_item session_id) items;
}

abbrev pub new_session : ℕ → ℕ → ℕ → SessionRow
new_session id user_id expires_at = record {
  id = id;
  user_id = user_id;
  address_id = none;
  courier_code = none;
  courier_service = none;
  courier_description = none;
  shipping_cost = none;
  shipping_etd = none;
  subtotal = none;
  total = none;
  courier_name = none;
  recipient_name = none;
  phone = none;
  address_line = none;
  province_name = none;
  city_name = none;
  district_name = none;
  postal_code = none;
  shipping_city_id = none;
  shipping_district_id = none;
  expires_at = expires_at;
  converted_at = none;
  revoked_at = none;
}

abbrev pub with_address : Option AddressRow → SessionRow → SessionRow
with_address none s = s
with_address (some a) s = set_address a s

-- Returns the id of the new row.
unfoldable pub insert_checkout_session : ℕ → ℕ → Option AddressRow → Tx Database ℕ
insert_checkout_session user_id expires_at address = do
  id ← gets λ db. db.next_session_id
  modify λ db. record db {
    sessions = db.sessions ++ (with_address address (new_session id user_id expires_at) ∷ []);
    next_session_id = suc id;
  }
  pure id

unfoldable pub insert_checkout_session_items : ℕ → List CartLine → Tx Database (Unit {0})
insert_checkout_session_items session_id items =
    modify
      λ db. record db { session_items = db.session_items ++ map (session_item session_id) items }

unfoldable pub get_active_session : ℕ → Tx Database (Option SessionRow)
get_active_session user_id =
    gets λ db. find_by (λ s. s.user_id == user_id && is_unused s) db.sessions

abbrev pub is_stale : ℕ → ℕ → SessionRow → Bool
is_stale user_id now s = s.user_id == user_id && is_unused s && leb s.expires_at now

abbrev pub set_revoked : ℕ → SessionRow → SessionRow
set_revoked now s = record s { revoked_at = some now }

unfoldable pub revoke_expired_sessions : ℕ → ℕ → Tx Database (Unit {0})
revoke_expired_sessions user_id now =
    modify (update_sessions (is_stale user_id now) (set_revoked now))

abbrev pub set_converted : ℕ → SessionRow → SessionRow
set_converted now s = record s { converted_at = some now }

unfoldable pub mark_session_converted : ℕ → ℕ → Tx Database (Unit {0})
mark_session_converted session_id now = do
  let p = λ (s : SessionRow). has_session_id session_id s && is_unused s
  updated ← gets λ db. matches p db.sessions
  modify (update_sessions p (set_converted now))
  throw_if (not updated) (bad_request "Session already used or invalid")

-- `clearCartByUserId`
unfoldable pub clear_cart_by_user_id : ℕ → Tx Database (Unit {0})
clear_cart_by_user_id user_id = modify λ db. record db {
  cart_items =
      select (λ ci. not (owns_cart user_id (find cart_key ci.cart_id db.carts))) db.cart_items;
}
