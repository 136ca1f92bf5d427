-- ===== src/Order/View.antt =====
-- What a user sees of an order: src/modules/user/order/order.user.mapper.ts, over the joined row of
-- `getOrderByCodeDetail` of order.user.repo.ts. The columns `created_at` and `updated_at` are arguments.
pub mod Listing
pub mod Agrees
use commerce_core_api.Common.{
  ℕ, Bool, true, false, not, ◌&&◌, ◌||◌, Option, none, some, List, [], ◌∷◌, Text, String, text_eq,
  is_blank, ltb, ◌==◌, if◌then◌else◌,
}
use commerce_core_api.Common.Int.{ℤ}
use commerce_core_api.Common.Error.{
  Tx, gets, or_throw, throw_if, bad_request, not_found, pure, ◌>>=◌, ◌>>◌,
}
use commerce_core_api.Common.Table.{find, find_by, select}
use commerce_core_api.Database.{Database}
use commerce_core_api.Database.Product.{OptionSnapshot}
use commerce_core_api.Database.Order.{
  OrderRow, OrderItemRow, ShipmentRow, OrderStatus, OrderPaymentStatus, OrderShipmentStatus,
  order_is, payment_is, shipment_is,
}
use commerce_core_api.Order.Repo.{shipment_key}

-- the words that `mapOrderStatus` answers
pub data ShownStatus : Type 0 where
  cancelled expired failed delivered shipped completed processing waiting_payment unknown :
      ShownStatus

-- `shipment?.status === …`
abbrev has_shipment : OrderShipmentStatus → Option OrderShipmentStatus → Bool
has_shipment status none = false
has_shipment status (some s) = shipment_is s status

unfoldable pub map_order_status :
    OrderStatus → OrderPaymentStatus → Option OrderShipmentStatus → ShownStatus
map_order_status status payment shipment =
    if order_is status OrderStatus.cancelled
    then cancelled
    else if payment_is payment OrderPaymentStatus.expired
    then expired
    else if payment_is payment OrderPaymentStatus.failed
    then failed
    else if has_shipment OrderShipmentStatus.delivered shipment
    then delivered
    else if has_shipment OrderShipmentStatus.shipped shipment
    then shipped
    else if order_is status OrderStatus.completed
    then completed
    else if order_is status OrderStatus.processing
    then processing
    else if order_is status OrderStatus.pending && payment_is payment OrderPaymentStatus.paid
    then processing
    else if order_is status OrderStatus.pending && payment_is payment OrderPaymentStatus.unpaid
    then waiting_payment
    else unknown

pub data StepKey : Type 0 where
  cancelled expired failed waiting_payment paid shipped delivered : StepKey

pub record TimelineStep : Type 0 where
  pub key : StepKey
  pub label : String
  pub date : Option ℕ
  pub is_completed : Bool
  pub is_current : Bool

abbrev pub step : StepKey → String → Option ℕ → Bool → Bool → TimelineStep
step key label date is_completed is_current = record {
  key = key;
  label = label;
  date = date;
  is_completed = is_completed;
  is_current = is_current;
}

unfoldable pub build_order_timeline : OrderRow → ShipmentRow → ℕ → Option ℕ → List TimelineStep
build_order_timeline o s created_at updated_at =
    if order_is o.status OrderStatus.cancelled
    then step StepKey.cancelled "Order Cancelled" o.cancelled_at true true ∷ []
    else if payment_is o.payment_status OrderPaymentStatus.expired
    then step StepKey.expired "Payment Expired" (some o.expires_at) true true ∷ []
    else if payment_is o.payment_status OrderPaymentStatus.failed
    then step StepKey.failed "Payment Failed" updated_at true true ∷ []
    else let is_paid = payment_is o.payment_status OrderPaymentStatus.paid in
      let is_shipped =
        shipment_is s.status OrderShipmentStatus.shipped
        || shipment_is s.status OrderShipmentStatus.delivered in
      let is_delivered = shipment_is s.status OrderShipmentStatus.delivered in
      step StepKey.waiting_payment "Waiting for Payment" (some created_at) true (not is_paid)
      ∷ step StepKey.paid "Payment Confirmed" o.paid_at is_paid (is_paid && not is_shipped)
      ∷ step StepKey.shipped "Order Shipped" s.shipped_at is_shipped
          (is_shipped && not is_delivered)
      ∷ step StepKey.delivered "Delivered" s.delivered_at is_delivered false
      ∷ []

-- `isFinal` of `canConfirmOrder` and `isFinalState` of `mapOrder`
abbrev pub is_final : OrderRow → Bool
is_final o =
    order_is o.status OrderStatus.cancelled
    || order_is o.status OrderStatus.completed
    || payment_is o.payment_status OrderPaymentStatus.failed
    || payment_is o.payment_status OrderPaymentStatus.expired

unfoldable pub can_confirm_order : OrderRow → ShipmentRow → Bool
can_confirm_order o s = shipment_is s.status OrderShipmentStatus.shipped && not (is_final o)

-- `canPay` of `mapOrder`
unfoldable pub can_pay : OrderRow → ℕ → Bool
can_pay o now =
    payment_is o.payment_status OrderPaymentStatus.unpaid
    && not (is_final o)
    && not (ltb o.expires_at now)

-- an item of `mapOrder`
pub record ShownItem : Type 0 where
  pub product_id : ℕ
  pub variant_id : ℕ
  pub name : Text
  pub slug : Text
  pub price : ℤ
  pub quantity : ℕ
  pub weight : ℤ
  pub image_key : Option Text
  pub options : List OptionSnapshot

abbrev pub shown_item : OrderItemRow → ShownItem
shown_item i = record {
  product_id = i.product_id;
  variant_id = i.variant_id;
  name = i.product_name;
  slug = i.slug;
  price = i.price;
  quantity = i.quantity;
  weight = i.weight;
  image_key = i.image_key;
  options = elim i.option_snapshot [ none ↦ [] | some os ↦ os ];
}

abbrev pub shown_items : List OrderItemRow → List ShownItem
shown_items [] = []
shown_items (i ∷ t) = shown_item i ∷ shown_items t

-- `warehouseOrigin`
pub record ShownOrigin : Type 0 where
  pub name : Text
  pub province : Text
  pub city : Text
  pub district : Text
  pub postal_code : Text

abbrev text_or_empty : Option Text → Text
text_or_empty none = []
text_or_empty (some s) = s

abbrev pub warehouse_origin : OrderRow → Option ShownOrigin
warehouse_origin o =
    if not (is_blank (some o.origin_name))
      || not (is_blank (some o.origin_province_name))
      || not (is_blank (some o.origin_city_name))
      || not (is_blank (some o.origin_district_name))
    then some (record {
      name = o.origin_name;
      province = o.origin_province_name;
      city = o.origin_city_name;
      district = o.origin_district_name;
      postal_code = text_or_empty o.origin_postal_code;
    })
    else none

-- what `mapOrder` answers; the address and the parcel as the rows have them
pub record OrderDto : Type 0 where
  pub order : OrderRow
  pub shipment : ShipmentRow
  pub status : ShownStatus
  pub can_pay : Bool
  pub can_confirm : Bool
  pub warehouse_origin : Option ShownOrigin
  pub timeline : List TimelineStep
  pub items : List ShownItem

unfoldable pub map_order : OrderRow → ShipmentRow → ℕ → Option ℕ → List OrderItemRow → ℕ → OrderDto
unfolding can_pay
map_order o s created_at updated_at items now = record {
  order = o;
  shipment = s;
  status = map_order_status o.status o.payment_status (some s.status);
  can_pay = can_pay o now;
  can_confirm = can_confirm_order o s;
  warehouse_origin = warehouse_origin o;
  timeline = build_order_timeline o s created_at updated_at;
  items = shown_items items;
}

-- `JOIN order_shipments os ON os.order_id = o.id`
abbrev pub join_shipment : Database → Option OrderRow → Option (OrderRow × ShipmentRow)
join_shipment db none = none
join_shipment db (some o) = elim (find shipment_key o.id db.shipments) [
  | none ↦ none
  | some s ↦ some (o, s)
]

unfoldable pub get_order_by_code_detail : Text → ℕ → Tx Database (Option (OrderRow × ShipmentRow))
get_order_by_code_detail code user_id = gets λ db.
    join_shipment db (find_by (λ o. text_eq o.order_code code && o.user_id == user_id) db.orders)

unfoldable pub get_order_items_detail : ℕ → Tx Database (List OrderItemRow)
get_order_items_detail order_id = gets λ db. select (λ i. i.order_id == order_id) db.order_items

abbrev is_empty : List OrderItemRow → Bool
is_empty [] = true
is_empty (i ∷ t) = false

-- `getOrder` of order.user.service.ts
unfoldable pub get_order : ℕ → Text → ℕ → Option ℕ → ℕ → Tx Database OrderDto
get_order user_id code created_at updated_at now = do
  found ← get_order_by_code_detail code user_id
  row ← or_throw found (not_found "Order not found")
  items ← get_order_items_detail row.0.id
  throw_if (is_empty items) (bad_request "Order has no items")
  pure (map_order row.0 row.1 created_at updated_at items now)
