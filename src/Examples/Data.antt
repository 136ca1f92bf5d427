-- ===== src/Examples/Data.antt =====
-- A small shop: one product with one variant, one user with one order and one checkout session.
use commerce_core_api.Common.{
  ℕ, ◌≡◌, refl, true, Option, none, some, List, [], ◌∷◌, Text, codes, arith, ◌==◌, ==→eq, subst,
  Bool-cases, inl, inr,
}
use commerce_core_api.Common.Int.{pos, ◌+ℤ◌, ◌*ℤ◌}
use commerce_core_api.Database.{Database}
use commerce_core_api.Database.Product.{ProductRow, VariantRow, ProductStatus, OptionSnapshot}
use commerce_core_api.Database.Checkout.{
  SessionRow, SessionItemRow, AddressRow, UserRow, WarehouseRow,
}
use commerce_core_api.Database.Order.{
  OrderRow, OrderItemRow, ShipmentRow, OrderStatus, OrderPaymentStatus, OrderShipmentStatus,
  TransactionStatus,
}
use commerce_core_api.Order.Lifecycle.{IsConsistentDb, is_legal}
use commerce_core_api.Checkout.Pricing.{IsPriced, IsPricedAt, session_value}
use commerce_core_api.Checkout.Repo.{session_key}
use commerce_core_api.Checkout.Session.{subtotal_of}
use commerce_core_api.Common.Table.{find}
use commerce_core_api.Payment.Payload.{MidtransWebhookPayload}

abbrev pub size_m : List OptionSnapshot
size_m = record { dimension = codes "Size"; value = codes "M" } ∷ []

abbrev pub product : ProductRow
product = record {
  id = 1;
  slug = codes "shirt";
  name = codes "Shirt";
  status = ProductStatus.active;
}

abbrev pub variant : VariantRow
variant = record {
  id = 10;
  product_id = 1;
  price = pos 5000;
  weight = pos 200;
  stock = 7;
  sold = 0;
  status = ProductStatus.active;
  option_snapshot = some size_m;
}

abbrev pub user : UserRow
user = record { id = 1; email = codes "a@b.c"; display_name = some (codes "Ann") }

abbrev pub address : AddressRow
address = record {
  id = 4;
  user_id = 1;
  label = none;
  recipient_name = codes "Ann";
  phone = codes "0812";
  address_line = codes "Street 1";
  province_name = codes "Bali";
  city_name = codes "Ubud";
  district_name = codes "Ubud";
  postal_code = none;
  shipping_province_id = 3;
  shipping_city_id = 17;
  shipping_district_id = some 170;
  is_default = true;
}

abbrev pub warehouse : WarehouseRow
warehouse = record {
  name = codes "Main";
  shipping_province_name = codes "Bali";
  shipping_city_name = codes "Denpasar";
  shipping_district_id = 99;
  shipping_district_name = codes "Kuta";
  postal_code = none;
}

abbrev pub session : SessionRow
session = record {
  id = 3;
  user_id = 1;
  address_id = some 4;
  courier_code = some (codes "jne");
  courier_service = some (codes "REG");
  courier_description = none;
  shipping_cost = some (pos 9000);
  shipping_etd = some (codes "2 day");
  subtotal = some (pos 10000);
  total = some (pos 19000);
  courier_name = some (codes "JNE");
  recipient_name = some (codes "Ann");
  phone = some (codes "0812");
  address_line = some (codes "Street 1");
  province_name = some (codes "Bali");
  city_name = some (codes "Ubud");
  district_name = some (codes "Ubud");
  postal_code = none;
  shipping_city_id = some 17;
  shipping_district_id = some 170;
  expires_at = 900;
  converted_at = none;
  revoked_at = none;
}

abbrev pub session_row : SessionItemRow
session_row = record {
  checkout_session_id = 3;
  variant_id = 10;
  product_id = 1;
  slug = codes "shirt";
  product_name = codes "Shirt";
  price = pos 5000;
  quantity = 2;
  weight = pos 200;
  option_snapshot = some size_m;
}

abbrev pub order : OrderStatus → OrderPaymentStatus → OrderRow
order status payment_status = record {
  id = 5;
  user_id = 1;
  email = codes "a@b.c";
  order_code = codes "ORD-5";
  status = status;
  payment_status = payment_status;
  subtotal = pos 15000;
  shipping_cost = pos 9000;
  total = pos 24000;
  recipient_name = codes "Ann";
  phone = codes "0812";
  address_line = codes "Street 1";
  province_name = codes "Bali";
  city_name = codes "Ubud";
  district_name = codes "Ubud";
  postal_code = none;
  origin_name = codes "Main";
  origin_province_name = codes "Bali";
  origin_city_name = codes "Denpasar";
  origin_district_name = codes "Kuta";
  origin_postal_code = none;
  note = none;
  expires_at = 100;
  paid_at = none;
  cancelled_at = none;
  completed_at = none;
  snap_token = none;
  snap_redirect_url = none;
}

abbrev pub order_row : OrderItemRow
order_row = record {
  order_id = 5;
  variant_id = 10;
  product_id = 1;
  product_name = codes "Shirt";
  slug = codes "shirt";
  price = pos 5000;
  quantity = 3;
  weight = pos 200;
  image_id = none;
  image_key = none;
  option_snapshot = some size_m;
}

abbrev pub shipment : OrderShipmentStatus → ShipmentRow
shipment status = record {
  order_id = 5;
  courier_code = codes "jne";
  courier_name = codes "JNE";
  courier_service = codes "REG";
  courier_description = none;
  shipping_etd = codes "2 day";
  tracking_number = none;
  status = status;
  shipped_at = some 60;
  delivered_at = none;
}

-- The shop with its order in the given state.
abbrev pub shop : OrderStatus → OrderPaymentStatus → OrderShipmentStatus → Database
shop status payment_status shipment_status = record {
  products = product ∷ [];
  variants = variant ∷ [];
  users = user ∷ [];
  addresses = address ∷ [];
  warehouses = warehouse ∷ [];
  carts = record { id = 1; user_id = some 1 } ∷ [];
  cart_items = record { cart_id = 1; variant_id = 10; quantity = 1 } ∷ [];
  sessions = session ∷ [];
  session_items = session_row ∷ [];
  orders = order status payment_status ∷ [];
  order_items = order_row ∷ [];
  shipments = shipment shipment_status ∷ [];
  payments = [];
  next_address_id = 5;
  next_cart_id = 2;
  next_session_id = 4;
  next_order_id = 6;
}

abbrev pub unpaid_shop : Database
unpaid_shop = shop OrderStatus.pending OrderPaymentStatus.unpaid OrderShipmentStatus.pending

abbrev pub paid_shop : Database
paid_shop = shop OrderStatus.pending OrderPaymentStatus.paid OrderShipmentStatus.pending

abbrev pub shipped_shop : Database
shipped_shop = shop OrderStatus.processing OrderPaymentStatus.paid OrderShipmentStatus.shipped

pub shop-IsConsistent :
    (a : OrderStatus) (b : OrderPaymentStatus) (c : OrderShipmentStatus)
    → is_legal a b c ≡ true
    → IsConsistentDb (shop a b c)
shop-IsConsistent a b c legal = record {
  orders_keyed = (refl, tt);
  shipments_keyed = (refl, tt);
  orders_below = λ k h. ground arith;
  shipments_below = λ k h. ground arith;
  legal = λ k o s eo es. ground arith;
}

the_session :
    (k : ℕ) (s : SessionRow)
    → find session_key k unpaid_shop.sessions ≡ some s
    → (3 ≡ k) × (session ≡ s)
the_session k s e = elim (Bool-cases (3 == k)) [
  | inl h ↦ (==→eq 3 k h, ground arith)
  | inr h ↦ absurd (ground arith)
]

session-IsPricedAt : IsPricedAt (session_value unpaid_shop 3) session
unfolding subtotal_of ◌+ℤ◌ ◌*ℤ◌
session-IsPricedAt = (refl, refl)

pub unpaid_shop-IsPriced : IsPriced unpaid_shop
unpaid_shop-IsPriced = record {
  sessions_keyed = (refl, tt);
  priced = λ k s e.
      let (key, row) = the_session k s e in
      subst (λ j. IsPricedAt (session_value unpaid_shop j) s) key
        (subst (λ r. IsPricedAt (session_value unpaid_shop 3) r) row session-IsPricedAt);
}

-- A settlement of the order.
abbrev pub payload : MidtransWebhookPayload
payload = record {
  transaction_id = codes "T1";
  order_id = codes "ORD-5";
  payment_type = codes "gopay";
  transaction_status = TransactionStatus.settlement;
  fraud_status = none;
  gross_amount = codes "24000.00";
  currency = codes "IDR";
  status_code = codes "200";
  signature_key = codes "abc";
  payment_code = none;
  store = none;
  bank = none;
  va_numbers = none;
  transaction_time = none;
  settlement_time = none;
}

abbrev pub no_date : Text → Option ℕ
no_date t = none
