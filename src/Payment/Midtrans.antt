-- ===== src/Payment/Midtrans.antt =====
-- The request for a payment page: src/modules/payment/midtrans/midtrans.builder.ts and
-- midtrans.types.ts. The argument `start_time` is the current time in the text form of
-- `formatDateToMidtrans`; the decimal digits of a product id are the runtime's `String(n)`.
pub mod Names
pub mod Amounts
use commerce_core_api.Common.{
  ℕ, ◌+◌, ◌-◌, ◌*◌, ◌/◌, Bool, Option, none, some, List, [], ◌∷◌, ◌++◌, map, Text, codes, length,
  take, max, ltb, leb, if◌then◌else◌,
}
use commerce_core_api.Common.Int.{ℤ}
use commerce_core_api.Database.Product.{OptionSnapshot}
use commerce_core_api.Database.Order.{OrderRow, OrderItemRow}

-- `${dimension}: ${value}`, joined by ", "
abbrev pub format_options : List OptionSnapshot → Text
format_options [] = []
format_options (o ∷ os) =
    let one = o.dimension ++ (codes ": " ++ o.value) in
    elim os [ [] ↦ one | x ∷ t ↦ one ++ (codes ", " ++ format_options os) ]

unfoldable pub format_option_snapshot : Option (List OptionSnapshot) → Text
format_option_snapshot none = []
format_option_snapshot (some []) = []
format_option_snapshot (some (o ∷ os)) = codes " (" ++ (format_options (o ∷ os) ++ codes ")")

-- `s.slice(0, a - b)`: a negative end counts from the end of the string.
abbrev pub slice_to : Text → ℕ → ℕ → Text
slice_to s a b = if leb b a then take (a - b) s else take (length s - (b - a)) s

abbrev pub max_length : ℕ
max_length = 50

unfoldable pub format_item_name : OrderItemRow → Text
format_item_name item =
    let option = format_option_snapshot item.option_snapshot in
    let remaining = max_length - length option in
    if leb max_length (length option)
    then slice_to option max_length 3 ++ codes "..."
    else if ltb remaining (length item.product_name)
    then (slice_to item.product_name remaining 3 ++ codes "...") ++ option
    else item.product_name ++ option

pub record MidtransItem : Type 0 where
  pub id : Text
  pub price : ℤ
  pub quantity : ℕ
  pub name : Text

pub record MidtransAddress : Type 0 where
  pub first_name : Text
  pub phone : Text
  pub address : Text
  pub city : Text
  pub postal_code : Text

pub record MidtransPayload : Type 0 where
  pub order_id : Text
  pub gross_amount : ℤ
  pub item_details : List MidtransItem
  pub first_name : Text
  pub email : Text
  pub phone : Text
  pub billing_address : MidtransAddress
  pub shipping_address : MidtransAddress
  pub notification_url : Text
  pub start_time : Text
  pub duration : ℕ

abbrev pub or_dash : Option Text → Text
or_dash none = codes "-"
or_dash (some s) = s

abbrev pub item_detail : (ℕ → Text) → OrderItemRow → MidtransItem
item_detail string_of i = record {
  id = string_of i.product_id;
  price = i.price;
  quantity = i.quantity;
  name = format_item_name i;
}

abbrev pub shipping_detail : OrderRow → MidtransItem
shipping_detail o = record {
  id = codes "SHIPPING";
  price = o.shipping_cost;
  quantity = 1;
  name = codes "Shipping Cost";
}

-- `Math.max(Math.ceil(remainingMs / 60000), 1)`; a negative remainder gives 1 too.
abbrev pub expiry_minutes : ℕ → ℕ → ℕ
expiry_minutes expires_at now = max ((expires_at - now + 59_999) / 60_000) 1

abbrev pub customer_name : Option Text → Text → Text
customer_name none email = email
customer_name (some name) email = name

-- `buildMidtransPayload`, on the order, its customer's `display_name` and its items
unfoldable pub build_midtrans_payload :
    (ℕ → Text) → Text → Text → OrderRow → Option Text → List OrderItemRow → ℕ → MidtransPayload
unfolding format_item_name format_option_snapshot
build_midtrans_payload string_of url start_time o display_name items now =
    let customer = customer_name display_name o.email in
    record {
      order_id = o.order_code;
      gross_amount = o.total;
      item_details = map (item_detail string_of) items ++ (shipping_detail o ∷ []);
      first_name = customer;
      email = o.email;
      phone = o.phone;
      billing_address = record {
        first_name = customer;
        phone = o.phone;
        address = o.address_line;
        city = o.city_name;
        postal_code = or_dash o.postal_code;
      };
      shipping_address = record {
        first_name = o.recipient_name;
        phone = o.phone;
        address = o.address_line;
        city = o.city_name;
        postal_code = or_dash o.postal_code;
      };
      notification_url = url;
      start_time = start_time;
      duration = expiry_minutes o.expires_at now;
    }
