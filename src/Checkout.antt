-- ===== src/Checkout.antt =====
-- Checkout sessions and their conversion into orders: src/modules/user/checkout.
pub mod Guards
pub mod Repo
pub mod Session
pub mod Confirm
pub mod View
pub mod Pricing
