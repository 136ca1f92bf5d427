-- ===== src/Database.antt =====
-- The PostgreSQL database as a value: one list of rows for each table that the modelled code uses, in
-- insertion order, and the next value of each BIGSERIAL id.
pub mod Product
pub mod Order
pub mod Checkout
pub mod Account
use commerce_core_api.Common.{ℕ, List}
use Product.{ProductRow, VariantRow}
use Order.{OrderRow, OrderItemRow, ShipmentRow, PaymentRow}
use Checkout.{CartRow, CartItemRow, SessionRow, SessionItemRow, AddressRow, UserRow, WarehouseRow}

pub record Database : Type 0 where
  pub products : List ProductRow
  pub variants : List VariantRow
  pub users : List UserRow
  pub addresses : List AddressRow
  pub warehouses : List WarehouseRow
  pub carts : List CartRow
  pub cart_items : List CartItemRow
  pub sessions : List SessionRow
  pub session_items : List SessionItemRow
  pub orders : List OrderRow
  pub order_items : List OrderItemRow
  pub shipments : List ShipmentRow
  pub payments : List PaymentRow
  pub next_address_id : ℕ
  pub next_cart_id : ℕ
  pub next_session_id : ℕ
  pub next_order_id : ℕ
