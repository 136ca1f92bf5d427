-- ===== src/Examples.antt =====
-- Concrete databases and runs of the handlers on them.
pub mod Data
mod Orders
mod Payments
mod Checkouts
mod Accounts
mod Carts
mod Views
mod Categories
