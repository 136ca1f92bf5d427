-- ===== src/Payment/Webhook.antt =====
-- `handleMidtransWebhook` of src/modules/payment/payment.service.ts, and the controller of
-- src/modules/payment/payment.controller.ts with src/modules/payment/midtrans/midtrans.signature.ts.
-- The argument `now` is `NOW()`; the runtime's parser of dates and its SHA-512 are parameters.
pub mod Effects
pub mod Duplicates
pub mod Outcome
pub mod Rank
pub mod Accepts
use commerce_core_api.Common.{
  ℕ, Bool, true, false, not, ◌&&◌, ◌||◌, Option, none, some, ◌++◌, Text, codes, text_eq, ltb,
  if◌then◌else◌,
}
use commerce_core_api.Common.Error.{Tx, Result, ok, err, or_throw, pure, not_found, ◌>>=◌, ◌>>◌}
use commerce_core_api.Database.{Database}
use commerce_core_api.Database.Order.{
  OrderRow, OrderStatus, OrderPaymentStatus, PaymentRow, TransactionStatus, order_is, payment_is,
}
use commerce_core_api.Order.Repo.{
  get_order_by_code_for_update, mark_order_paid, mark_order_expired, mark_order_failed,
}
use commerce_core_api.Product.{increment_variant_sold}
use commerce_core_api.Payment.Status.{payment_status_rank, transaction_is}
use commerce_core_api.Payment.Payload.{MidtransWebhookPayload, map_midtrans_webhook_to_payment}
use commerce_core_api.Payment.Repo.{
  find_by_transaction_id, insert_payment, update_payment_status, lift_result,
}

-- `status === "settlement" || (status === "capture" && payload.fraud_status === "accept")`
abbrev is_accepted : Option Text → Bool
is_accepted none = false
is_accepted (some s) = text_eq s (codes "accept")

abbrev pub is_paid_event : MidtransWebhookPayload → Bool
is_paid_event p =
    transaction_is p.transaction_status TransactionStatus.settlement
    || transaction_is p.transaction_status TransactionStatus.capture && is_accepted p.fraud_status

-- steps 4 to 6, on the order as it was found
unfoldable pub apply_event : MidtransWebhookPayload → OrderRow → ℕ → Tx Database (Unit {0})
unfolding mark_order_paid mark_order_expired mark_order_failed increment_variant_sold
apply_event payload order now =
    let status = payload.transaction_status in
    if is_paid_event payload
    then if payment_is order.payment_status OrderPaymentStatus.paid
      then pure tt
      else (mark_order_paid order.id now >> increment_variant_sold order.id)
    else if payment_is order.payment_status OrderPaymentStatus.paid
    then pure tt
    else if order_is order.status OrderStatus.cancelled
        || order_is order.status OrderStatus.completed
    then pure tt
    else if transaction_is status TransactionStatus.expire
    then mark_order_expired order.id
    else if transaction_is status TransactionStatus.cancel
        || transaction_is status TransactionStatus.deny
        || transaction_is status TransactionStatus.failure
    then mark_order_failed order.id
    else pure tt

module _ (parse_date : Text → Option ℕ) where
  -- step 3, on the payment found for the transaction
  unfoldable pub record_payment :
      MidtransWebhookPayload → OrderRow → Option PaymentRow → Tx Database (Unit {0})
  record_payment payload order none = do
    input ← lift_result (map_midtrans_webhook_to_payment parse_date payload order.id)
    insert_payment input
  record_payment payload order (some existing) =
      if transaction_is existing.transaction_status payload.transaction_status
      then pure tt
      else if ltb (payment_status_rank payload.transaction_status)
          (payment_status_rank existing.transaction_status)
      then pure tt
      else update_payment_status parse_date payload.transaction_id payload

  unfoldable pub handle_midtrans_webhook : MidtransWebhookPayload → ℕ → Tx Database (Unit {0})
  unfolding get_order_by_code_for_update find_by_transaction_id record_payment apply_event
  handle_midtrans_webhook payload now = do
    found ← get_order_by_code_for_update payload.order_id
    order ← or_throw found (not_found "Order not found")
    existing ← find_by_transaction_id payload.transaction_id
    record_payment payload order existing
    apply_event payload order now

-- `verifyMidtransSignature`; `sha512_hex` is the hexadecimal digest of `crypto`.
unfoldable pub verify_midtrans_signature : (Text → Text) → MidtransWebhookPayload → Text → Bool
verify_midtrans_signature sha512_hex p server_key =
    let raw = p.order_id ++ (p.status_code ++ (p.gross_amount ++ server_key)) in
    text_eq (sha512_hex raw) p.signature_key

-- the `message` of the response, whose status is always 200
pub data WebhookReply : Type 0 where
  ignored okay error_handled : WebhookReply

-- The controller, on the outcome of the schema's `safeParse`.
unfoldable pub webhook_controller :
    (Text → Option ℕ)
    → (Text → Text)
    → Text
    → Option MidtransWebhookPayload
    → ℕ
    → Database
    → WebhookReply × Database
webhook_controller parse_date sha512_hex server_key none now db = (ignored, db)
webhook_controller parse_date sha512_hex server_key (some payload) now db =
    if verify_midtrans_signature sha512_hex payload server_key
    then elim (handle_midtrans_webhook parse_date payload now db) [
      | ok (u, db') ↦ (okay, db')
      | err e ↦ (error_handled, db)
    ]
    else (ignored, db)
