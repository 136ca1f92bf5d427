-- ===== src/Database/Order.antt =====
-- The rows of orders, order_items, order_shipments and order_payments, and their status words:
-- src/shared/order/order.types.ts, and the tables that src/modules/user/order/order.user.repo.ts and
-- src/modules/payment/payment.repo.ts insert into. The columns created_at and updated_at, which the
-- database sets, are left out. Times are milliseconds.
use commerce_core_api.Common.{ℕ, Bool, Option, List, Text, ◌==◌}
use commerce_core_api.Common.Int.{ℤ}
use commerce_core_api.Database.Product.{OptionSnapshot}

pub data OrderPaymentStatus : Type 0 where
  unpaid paid failed expired : OrderPaymentStatus

pub data OrderStatus : Type 0 where
  pending processing cancelled completed : OrderStatus

pub data OrderShipmentStatus : Type 0 where
  pending shipped delivered : OrderShipmentStatus

-- `===` on the status words
abbrev pub payment_tag : OrderPaymentStatus → ℕ
payment_tag OrderPaymentStatus.unpaid = 0
payment_tag OrderPaymentStatus.paid = 1
payment_tag OrderPaymentStatus.failed = 2
payment_tag OrderPaymentStatus.expired = 3

abbrev pub order_tag : OrderStatus → ℕ
order_tag OrderStatus.pending = 0
order_tag OrderStatus.processing = 1
order_tag OrderStatus.cancelled = 2
order_tag OrderStatus.completed = 3

abbrev pub shipment_tag : OrderShipmentStatus → ℕ
shipment_tag OrderShipmentStatus.pending = 0
shipment_tag OrderShipmentStatus.shipped = 1
shipment_tag OrderShipmentStatus.delivered = 2

abbrev pub payment_is : OrderPaymentStatus → OrderPaymentStatus → Bool
payment_is a b = payment_tag a == payment_tag b

abbrev pub order_is : OrderStatus → OrderStatus → Bool
order_is a b = order_tag a == order_tag b

abbrev pub shipment_is : OrderShipmentStatus → OrderShipmentStatus → Bool
shipment_is a b = shipment_tag a == shipment_tag b

pub record OrderRow : Type 0 where
  pub id : ℕ
  pub user_id : ℕ
  pub email : Text
  pub order_code : Text
  pub status : OrderStatus
  pub payment_status : OrderPaymentStatus
  pub subtotal : ℤ
  pub shipping_cost : ℤ
  pub total : ℤ
  pub recipient_name : Text
  pub phone : Text
  pub address_line : Text
  pub province_name : Text
  pub city_name : Text
  pub district_name : Text
  pub postal_code : Option Text
  pub origin_name : Text
  pub origin_province_name : Text
  pub origin_city_name : Text
  pub origin_district_name : Text
  pub origin_postal_code : Option Text
  pub note : Option Text
  pub expires_at : ℕ
  pub paid_at : Option ℕ
  pub cancelled_at : Option ℕ
  pub completed_at : Option ℕ
  pub snap_token : Option Text
  pub snap_redirect_url : Option Text

pub record OrderItemRow : Type 0 where
  pub order_id : ℕ
  pub variant_id : ℕ
  pub product_id : ℕ
  pub product_name : Text
  pub slug : Text
  pub price : ℤ
  pub quantity : ℕ
  pub weight : ℤ
  pub image_id : Option ℕ
  pub image_key : Option Text
  pub option_snapshot : Option (List OptionSnapshot)

-- At most one shipment for each order (UNIQUE on order_id), so the order's id is the key.
pub record ShipmentRow : Type 0 where
  pub order_id : ℕ
  pub courier_code : Text
  pub courier_name : Text
  pub courier_service : Text
  pub courier_description : Option Text
  pub shipping_etd : Text
  pub tracking_number : Option Text
  pub status : OrderShipmentStatus
  pub shipped_at : Option ℕ
  pub delivered_at : Option ℕ

-- `transaction_status`: the ten words that the CHECK constraint of order_payments admits, and any
-- other text.
pub data TransactionStatus : Type 0 where
  pending authorize capture settlement expire cancel deny failure refund partial_refund :
      TransactionStatus
  other : Text → TransactionStatus

pub record PaymentRow : Type 0 where
  pub order_id : ℕ
  pub order_code : Text
  pub transaction_id : Text
  pub payment_type : Text
  pub transaction_status : TransactionStatus
  pub fraud_status : Option Text
  pub gross_amount : ℤ
  pub currency : Text
  pub payment_code : Option Text
  pub store : Option Text
  pub bank : Option Text
  pub transaction_time : Option ℕ
  pub settlement_time : Option ℕ
