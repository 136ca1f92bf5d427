-- ===== src/Lib.antt =====
-- The core of commerce-core-api: accounts and their sessions, carts, addresses, checkout, orders,
-- payments and background jobs over one PostgreSQL database.
--
-- How the parts interact. A user signs in, and holds a session with a refresh token that each refresh
-- replaces (src/modules/auth); it fills a cart (src/modules/cart) and keeps a few addresses
-- (src/modules/user). A user's checkout session (src/modules/user/checkout) collects the items of a
-- cart, an address and a shipping method; confirmCheckout turns it into an order with its items and a
-- shipment, takes the stock and closes the session. The payment provider's webhook
-- (src/modules/payment) records payments and marks orders paid, expired or failed. Administrators ship
-- and deliver (src/modules/admin/order), users cancel and confirm (src/modules/user/order), and the
-- workers (src/modules/internal/workers, src/workers/jobs) expire unpaid orders and complete delivered
-- ones. All but the accounts share tables, so the database is one record; the tables of the accounts,
-- which no other modelled part writes, are a second one, and the categories a third.
--
-- Files.
--   Common: shared names; Tests and Lists (Boolean tests, texts as UTF-16 code units), Int (integers over
--     the native numbers), Table (SELECT, UPDATE and keyed tables), Sort and Batch (ORDER BY and LIMIT), Error
--     (src/errors/app-error.ts, and transactions as state passing in which a throw drops the state), Steps (statements that commit
--     one by one), Count (COUNT).
--   Database: the rows of every table, and the database.
--   Auth: Repo is src/modules/auth/auth.repo.ts; Tokens the sessions and refresh tokens,
--     with Rotation, Spent and Later on tokens that have been presented, Service and its
--     child Mails the other handlers of auth.service.ts.
--   Cart: Repo, View and the handlers are src/modules/cart; Quantities, Items and Held follow the tables,
--     Refine states the map from users and variants to quantities.
--   User: Repo and the handlers are the addresses of src/modules/user/user.repo.ts and user.service.ts;
--     Addresses and Defaults are on the default address.
--   Category: the tree of src/modules/admin/category, a table of its own; Slugs is on category.slug.ts,
--     Forest and Requests on the paths.
--   Product: src/modules/product/product-stock.repo.ts and product-metrics.repo.ts; Stock on quantities.
--   Order: Repo is src/modules/order/order.repo.ts, Guards src/shared/order/order.utils.ts, Admin and User
--     the services, Worker expireOrders and the automatic completion, View order.user.mapper.ts; Lifecycle
--     holds the legal states, its Expiry and Completion the outcomes of the two jobs.
--   Payment: Status, Payload, Repo and Webhook are src/modules/payment; Midtrans is the request builder
--     and Token is createSnapToken.
--   Images: src/shared/variant-image/resolver.ts.
--   Checkout: Guards, Repo and Session are src/modules/user/checkout; Confirm is confirmCheckout with the
--     inserts of src/modules/user/order/order.user.repo.ts, View checkout.user.mapper.ts; Pricing is on the
--     totals of sessions.
--   System: all transactions as one step relation, and the states that they reach.
--   Examples: a concrete shop, with a run of each theorem on it.
--
-- Correspondence. A function of the model has the name of the function of the code in snake case. A query
-- is a function of the database, a row an entry of a list in insertion order, `rows[0]` the first match,
-- and `rowCount` whether a row matches. A service method is a do block with the method's guards in their
-- order. Handlers take the current time, and the job the rows that others have locked, as arguments.
--
-- Bounds. Every loop is a recursion on a list, but for the search of a category's slug: it has one unit of
-- fuel more than there are categories, which is enough. Integers are unbounded, except where
-- a value from outside meets an INTEGER column: the amount of a payment is refused out of range. The texts
-- of a payment are refused beyond the VARCHAR limits of their columns; other texts have none here, and no
-- text holds the character NUL, which PostgreSQL does not store. Amounts
-- of orders are not bounded to 32 bits here.
--
-- Parameters. The answer of the payment provider to a request, the digest and the parser of dates of the
-- runtime, the answer of the shipping service, the pictures found for an item, the code of a new order and
-- the decimal digits of an id are arguments, without any hypothesis on them. So are the hashes of tokens
-- and passwords and the signature of access tokens (the record Crypto), trim and toLowerCase, the random
-- tokens that are drawn, and the regions that the shipping service answers; where a theorem needs that a
-- password is accepted with its own hash, it says so. slugify and the text of a number are parameters
-- too, the latter with the hypothesis that different numbers have different texts.
--
-- Not modelled. Interleavings inside a transaction: each handler locks the rows that it reads FOR UPDATE,
-- and runs here as one step; setting an address or a shipping method, opening a session, and changing
-- the addresses of a user read before their transaction opens, and are one step too. The columns
-- created_at, updated_at and raw_payload. The user's profile, mails and cookies, products, collections and banners, the store
-- front, HTTP and the shipping client.
pub mod Common
pub mod Database
pub mod Order
pub mod Product
pub mod Payment
pub mod Images
pub mod Checkout
pub mod Auth
pub mod Cart
pub mod User
pub mod Category
pub mod System
pub mod Examples
