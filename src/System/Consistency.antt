-- ===== src/System/Consistency.antt =====
-- The reachable states and the legal states of orders and shipments.
use commerce_core_api.Common.{refl, arith, ℕ, Option, Text}
use commerce_core_api.Database.{Database}
use commerce_core_api.Images.{ImageRef}
use commerce_core_api.Checkout.Guards.{CheckoutItem}
use commerce_core_api.Checkout.Confirm.Orders.{confirm_checkout-IsConsistent}
use commerce_core_api.Order.Lifecycle.{IsConsistentDb, orders-IsConsistent}
use commerce_core_api.Order.Repo.{has_id}
use commerce_core_api.Payment.Token.{set_token, create_snap_token_rule}
use commerce_core_api.Order.Lifecycle.Admin.{
  mark_as_shipped-IsConsistent, mark_as_delivered-IsConsistent,
}
use commerce_core_api.Order.Lifecycle.User.{
  cancel_order-IsConsistent, confirm_delivered-IsConsistent,
}
use commerce_core_api.Order.Lifecycle.Worker.{
  expire_orders-IsConsistent, auto_complete_delivered_orders-IsConsistent,
}
use commerce_core_api.Payment.Webhook.Effects.{handle_midtrans_webhook-IsConsistent}
use commerce_core_api.System.{
  Step, convert, ship, deliver, cancel, confirm, webhook, expire, complete, tokenize, elsewhere,
  Reach, here, next,
}

module _ {image : CheckoutItem → Option ImageRef} {parse_date : Text → Option ℕ} where
  pub Step-IsConsistent :
      {db db' : Database} → Step image parse_date db db' → IsConsistentDb db → IsConsistentDb db'
  Step-IsConsistent {db} (convert user_id session_id code now receipt e) c =
      rw e at (confirm_checkout-IsConsistent image user_id session_id code now db c)
  Step-IsConsistent {db} (ship order_id tracking_number now e) c =
      rw e at (mark_as_shipped-IsConsistent order_id tracking_number now db c)
  Step-IsConsistent {db} (deliver order_id now e) c =
      rw e at (mark_as_delivered-IsConsistent order_id now db c)
  Step-IsConsistent {db} (cancel user_id code now e) c =
      rw e at (cancel_order-IsConsistent user_id code now db c)
  Step-IsConsistent {db} (confirm user_id code now e) c =
      rw e at (confirm_delivered-IsConsistent user_id code now db c)
  Step-IsConsistent {db} (webhook payload now e) c =
      rw e at (handle_midtrans_webhook-IsConsistent parse_date payload now db c)
  Step-IsConsistent {db} (expire now locked affected e) c =
      rw e at (expire_orders-IsConsistent now locked db c)
  Step-IsConsistent {db} (complete now affected e) c =
      rw e at (auto_complete_delivered_orders-IsConsistent now db c)
  Step-IsConsistent {db} (tokenize create string_of url user_id code start_time now answer e) c =
      rw e at (
        create_snap_token_rule create string_of url IsConsistentDb db c
          (λ id token page.
            orders-IsConsistent (has_id id) (set_token token page) (λ _. refl)
              (λ k o s eo es legal. ground arith) c)
          user_id code start_time now)
  Step-IsConsistent {db} (elsewhere o s n) c = rw (o, s, n) c

  -- In every state that a consistent database can reach, each order with its shipment is in one of the nine
  -- legal combinations of status words, and the keys are distinct.
  pub Reach-IsConsistent :
      {db db' : Database} → Reach image parse_date db db' → IsConsistentDb db → IsConsistentDb db'
  Reach-IsConsistent here c = c
  Reach-IsConsistent (next r s) c = Step-IsConsistent s (Reach-IsConsistent r c)
