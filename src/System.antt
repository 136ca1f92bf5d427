-- ===== src/System.antt =====
-- The whole system as a step relation: each step is one committed transaction of the order, payment,
-- checkout and worker code, in any order and at any times, or a transaction of other code that leaves
-- the tables orders and order_shipments alone.
pub mod Consistency
pub mod Progress
use commerce_core_api.Common.{ℕ, ◌≡◌, Bool, Option, Text}
use commerce_core_api.Common.Error.{Result, ok}
use commerce_core_api.Database.{Database}
use commerce_core_api.Images.{ImageRef}
use commerce_core_api.Checkout.Guards.{CheckoutItem}
use commerce_core_api.Checkout.Confirm.{confirm_checkout}
use commerce_core_api.Order.Admin.{mark_as_shipped, mark_as_delivered}
use commerce_core_api.Order.User.{cancel_order, confirm_delivered}
use commerce_core_api.Order.Worker.{expire_orders, auto_complete_delivered_orders}
use commerce_core_api.Payment.Payload.{MidtransWebhookPayload}
use commerce_core_api.Payment.Midtrans.{MidtransPayload}
use commerce_core_api.Payment.Token.{create_snap_token}
use commerce_core_api.Payment.Webhook.{handle_midtrans_webhook}

pub data Step (image : CheckoutItem → Option ImageRef) (parse_date : Text → Option ℕ)
    (db db' : Database) : Type 0 where
  convert :
      (user_id session_id : ℕ) (code : Text) (now : ℕ) (receipt : Text)
      → confirm_checkout image user_id session_id code now db ≡ ok (receipt, db')
      → Step image parse_date db db'
  ship :
      (order_id : ℕ) (tracking_number : Text) (now : ℕ)
      → mark_as_shipped order_id tracking_number now db ≡ ok (tt, db')
      → Step image parse_date db db'
  deliver :
      (order_id now : ℕ)
      → mark_as_delivered order_id now db ≡ ok (tt, db')
      → Step image parse_date db db'
  cancel :
      (user_id : ℕ) (code : Text) (now : ℕ)
      → cancel_order user_id code now db ≡ ok (tt, db')
      → Step image parse_date db db'
  confirm :
      (user_id : ℕ) (code : Text) (now : ℕ)
      → confirm_delivered user_id code now db ≡ ok (tt, db')
      → Step image parse_date db db'
  webhook :
      (payload : MidtransWebhookPayload) (now : ℕ)
      → handle_midtrans_webhook parse_date payload now db ≡ ok (tt, db')
      → Step image parse_date db db'
  expire :
      (now : ℕ) (locked : ℕ → Bool) (affected : ℕ)
      → expire_orders now locked db ≡ ok (affected, db')
      → Step image parse_date db db'
  complete :
      (now affected : ℕ)
      → auto_complete_delivered_orders now db ≡ ok (affected, db')
      → Step image parse_date db db'
  tokenize :
      (create_snap_transaction : MidtransPayload → Result (Text × Text)) (string_of : ℕ → Text)
      (url : Text) (user_id : ℕ) (code start_time : Text) (now : ℕ)
      (answer : Option Text × Option Text)
      → create_snap_token create_snap_transaction string_of url user_id code start_time now db
        ≡ ok (answer, db')
      → Step image parse_date db db'
  elsewhere :
      db'.orders ≡ db.orders
      → db'.shipments ≡ db.shipments
      → db'.next_order_id ≡ db.next_order_id
      → Step image parse_date db db'

pub data Reach (image : CheckoutItem → Option ImageRef) (parse_date : Text → Option ℕ)
    (db : Database) : Database → Type 0 where
  here : Reach image parse_date db db
  next :
      {d d' : Database}
      → Reach image parse_date db d
      → Step image parse_date d d'
      → Reach image parse_date db d'
