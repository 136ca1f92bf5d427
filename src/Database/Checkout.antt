-- ===== src/Database/Checkout.antt =====
-- The rows of carts, cart_items, checkout_sessions, checkout_session_items, users, user_addresses and
-- warehouses: src/modules/user/checkout/checkout.user.types.ts and src/modules/cart/cart.repo.ts, with
-- the columns that the modelled code reads or writes. Times are milliseconds.
use commerce_core_api.Common.{ℕ, Bool, Option, List, Text}
use commerce_core_api.Common.Int.{ℤ}
use commerce_core_api.Database.Product.{OptionSnapshot}

pub record CartRow : Type 0 where
  pub id : ℕ
  pub user_id : Option ℕ

pub record CartItemRow : Type 0 where
  pub cart_id : ℕ
  pub variant_id : ℕ
  pub quantity : ℕ

-- `CheckoutSessionRow`
pub record SessionRow : Type 0 where
  pub id : ℕ
  pub user_id : ℕ
  pub address_id : Option ℕ
  pub courier_code : Option Text
  pub courier_service : Option Text
  pub courier_description : Option Text
  pub shipping_cost : Option ℤ
  pub shipping_etd : Option Text
  pub subtotal : Option ℤ
  pub total : Option ℤ
  pub courier_name : Option Text
  pub recipient_name : Option Text
  pub phone : Option Text
  pub address_line : Option Text
  pub province_name : Option Text
  pub city_name : Option Text
  pub district_name : Option Text
  pub postal_code : Option Text
  pub shipping_city_id : Option ℕ
  pub shipping_district_id : Option ℕ
  pub expires_at : ℕ
  pub converted_at : Option ℕ
  pub revoked_at : Option ℕ

-- a row of checkout_session_items
pub record SessionItemRow : Type 0 where
  pub checkout_session_id : ℕ
  pub variant_id : ℕ
  pub product_id : ℕ
  pub slug : Text
  pub product_name : Text
  pub price : ℤ
  pub quantity : ℕ
  pub weight : ℤ
  pub option_snapshot : Option (List OptionSnapshot)

pub record AddressRow : Type 0 where
  pub id : ℕ
  pub user_id : ℕ
  pub label : Option Text
  pub recipient_name : Text
  pub phone : Text
  pub address_line : Text
  pub province_name : Text
  pub city_name : Text
  pub district_name : Text
  pub postal_code : Option Text
  pub shipping_province_id : ℕ
  pub shipping_city_id : ℕ
  pub shipping_district_id : Option ℕ
  pub is_default : Bool

pub record UserRow : Type 0 where
  pub id : ℕ
  pub email : Text
  pub display_name : Option Text

pub record WarehouseRow : Type 0 where
  pub name : Text
  pub shipping_province_name : Text
  pub shipping_city_name : Text
  pub shipping_district_id : ℕ
  pub shipping_district_name : Text
  pub postal_code : Option Text
