-- ===== src/Order/View/Listing.antt =====
-- A row of the list of a user's orders: `mapOrdersByUser` of src/modules/user/order/order.user.mapper.ts,
-- over the SELECT of `getOrders` of order.user.repo.ts for one order. Its filter, its pages and its sort
-- are left out, and the column `created_at` is an argument.
use commerce_core_api.Common.{ℕ, Bool, Option, none, some, List, [], ◌∷◌, Text, length, ◌==◌}
use commerce_core_api.Common.Int.{ℤ}
use commerce_core_api.Common.Table.{select}
use commerce_core_api.Database.{Database}
use commerce_core_api.Database.Order.{
  OrderRow, OrderItemRow, ShipmentRow, OrderStatus, OrderPaymentStatus, OrderShipmentStatus,
  shipment_is,
}
use commerce_core_api.Order.View.{ShownStatus, map_order_status}

pub record OrderByUser : Type 0 where
  pub id : ℕ
  pub order_code : Text
  pub status : OrderStatus
  pub payment_status : OrderPaymentStatus
  pub total : ℤ
  pub created_at : ℕ
  pub shipment_status : OrderShipmentStatus
  pub item_count : Option ℕ
  pub product_id : Option ℕ
  pub slug : Option Text
  pub preview_name : Option Text
  pub preview_image : Option Text

-- `item_count` and `preview_item`, which have no row for an order without items
abbrev counted : List OrderItemRow → Option ℕ
counted [] = none
counted (i ∷ t) = some (length (i ∷ t))

abbrev first_item : List OrderItemRow → Option OrderItemRow
first_item [] = none
first_item (i ∷ t) = some i

abbrev preview_image_of : Option OrderItemRow → Option Text
preview_image_of none = none
preview_image_of (some i) = i.image_key

abbrev from_item : {A : Type 0} → (OrderItemRow → A) → Option OrderItemRow → Option A
from_item f none = none
from_item f (some i) = some (f i)

-- the row of one order and its shipment
unfoldable pub order_by_user : Database → OrderRow → ShipmentRow → ℕ → OrderByUser
order_by_user db o s created_at =
    let items = select (λ (i : OrderItemRow). i.order_id == o.id) db.order_items in
    let preview = first_item items in
    record {
      id = o.id;
      order_code = o.order_code;
      status = o.status;
      payment_status = o.payment_status;
      total = o.total;
      created_at = created_at;
      shipment_status = s.status;
      item_count = counted items;
      product_id = from_item (λ i. i.product_id) preview;
      slug = from_item (λ i. i.slug) preview;
      preview_name = from_item (λ i. i.product_name) preview;
      preview_image = preview_image_of preview;
    }

-- what `mapOrdersByUser` answers, `previewItem` being `preview_name` and `preview_image`
pub record OrderSummary : Type 0 where
  pub id : ℕ
  pub order_code : Text
  pub product_id : Option ℕ
  pub slug : Option Text
  pub status : ShownStatus
  pub total : ℤ
  pub created_at : ℕ
  pub item_count : ℕ
  pub preview_name : Text
  pub preview_image : Option Text
  pub can_confirm : Bool

abbrev count_or_zero : Option ℕ → ℕ
count_or_zero none = 0
count_or_zero (some n) = n

abbrev name_or_empty : Option Text → Text
name_or_empty none = []
name_or_empty (some s) = s

unfoldable pub map_orders_by_user : OrderByUser → OrderSummary
map_orders_by_user row = record {
  id = row.id;
  order_code = row.order_code;
  product_id = row.product_id;
  slug = row.slug;
  status = map_order_status row.status row.payment_status (some row.shipment_status);
  total = row.total;
  created_at = row.created_at;
  item_count = count_or_zero row.item_count;
  preview_name = name_or_empty row.preview_name;
  preview_image = row.preview_image;
  can_confirm = shipment_is row.shipment_status OrderShipmentStatus.shipped;
}
