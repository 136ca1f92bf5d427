-- ===== src/Payment/Webhook/Accepts.antt =====
-- When a delivery is processed to its end.
use commerce_core_api.Common.{
  ℕ, ◌≡◌, refl, true, Option, none, some, Text, arith, Option-cases, inl, inr, is_some,
}
use commerce_core_api.Common.Error.{Result, ok, err, ◌>>=◌, ◌>>◌}
use commerce_core_api.Common.Table.{find_by}
use commerce_core_api.Database.{Database}
use commerce_core_api.Database.Order.{OrderRow, PaymentRow}
use commerce_core_api.Order.Repo.{has_code}
use commerce_core_api.Order.Lifecycle.Accepts.{succeeds}
use commerce_core_api.Payment.Status.{is_known}
use commerce_core_api.Payment.Payload.{
  MidtransWebhookPayload, map_midtrans_webhook_to_payment, int4_column, date_column, parse_int,
  payment_code_and_bank,
}
use commerce_core_api.Payment.Repo.{
  has_transaction, fits, fits_null, fits_columns, insert_payment, update_payment_status,
  lift_result,
}
use commerce_core_api.Payment.Webhook.{record_payment, apply_event, handle_midtrans_webhook}

-- A payload whose status, texts, amount and dates are ones that the columns of order_payments take.
pub record IsStorable (parse_date : Text → Option ℕ) (p : MidtransWebhookPayload) : Type 0 where
  pub known : is_known p.transaction_status ≡ true
  pub amount : succeeds (int4_column (parse_int p.gross_amount)) ≡ true
  pub transaction_time : succeeds (date_column parse_date p.transaction_time) ≡ true
  pub settlement_time : succeeds (date_column parse_date p.settlement_time) ≡ true
  pub order_code : fits 50 p.order_id ≡ true
  pub transaction_id : fits 100 p.transaction_id ≡ true
  pub payment_type : fits 50 p.payment_type ≡ true
  pub fraud_status : fits_null 20 p.fraud_status ≡ true
  pub currency : fits 10 p.currency ≡ true
  pub payment_code : fits_null 100 (payment_code_and_bank p).0 ≡ true
  pub store : fits_null 50 p.store ≡ true
  pub bank : fits_null 50 (payment_code_and_bank p).1 ≡ true

module _ (parse_date : Text → Option ℕ) (payload : MidtransWebhookPayload)
    (h : IsStorable parse_date payload) where
  abbrev IsInsertable : Result PaymentRow → Type 0
  IsInsertable (err e) = ⊥
  IsInsertable (ok r) =
      (r.transaction_id ≡ payload.transaction_id)
      × (is_known r.transaction_status ≡ true)
      × (fits_columns r ≡ true)

  map-IsInsertable : (k : ℕ) → IsInsertable (map_midtrans_webhook_to_payment parse_date payload k)
  unfolding map_midtrans_webhook_to_payment
  map-IsInsertable k = ground (
    arith, h.known, h.amount, h.transaction_time, h.settlement_time, h.order_code, h.transaction_id,
    h.payment_type, h.fraud_status, h.currency, h.payment_code, h.store, h.bank,
  )

  insert-succeeds :
      (r : Result PaymentRow) (db : Database)
      → IsInsertable r
      → find_by (has_transaction payload.transaction_id) db.payments ≡ none
      → succeeds (◌>>=◌ (lift_result r) insert_payment db) ≡ true
  unfolding insert_payment
  insert-succeeds (err e) db i f = absurd i
  insert-succeeds (ok r) db i f = rw (i.2, i.1, i.0, f) refl

  update-succeeds :
      (db : Database)
      → succeeds (update_payment_status parse_date payload.transaction_id payload db) ≡ true
  unfolding update_payment_status
  update-succeeds db = ground (arith, h.known, h.settlement_time, h.fraud_status)

  record_payment-succeeds :
      (o : OrderRow) (q : Option PaymentRow) (db : Database)
      → find_by (has_transaction payload.transaction_id) db.payments ≡ q
      → succeeds (record_payment parse_date payload o q db) ≡ true
  unfolding record_payment
  record_payment-succeeds o none db f =
      insert-succeeds (map_midtrans_webhook_to_payment parse_date payload o.id) db
        (map-IsInsertable o.id) f
  record_payment-succeeds o (some q) db f = ground (arith, update-succeeds db)

  event-succeeds :
      (o : OrderRow) (now : ℕ) (db : Database) → succeeds (apply_event payload o now db) ≡ true
  unfolding apply_event
  event-succeeds o now db = ground arith

  both-succeed :
      (o : OrderRow) (now : ℕ) (db : Database) (x : Result (Unit {0} × Database))
      → succeeds x ≡ true
      → succeeds (◌>>◌ {B = Unit {0}} (λ _. x) (apply_event payload o now) db) ≡ true
  both-succeed o now db (err e) s = cc
  both-succeed o now db (ok (u, db')) s = event-succeeds o now db'

  -- A payload whose status is known to the table, whose amount and dates can be stored, and whose texts
  -- are within the VARCHAR limits of their columns (and hold no NUL, which no text of the model does), is
  -- processed to the end exactly when there is an order with its code.
  pub handle_midtrans_webhook-succeeds :
      (now : ℕ) (db : Database)
      → succeeds (handle_midtrans_webhook parse_date payload now db)
        ≡ is_some (find_by (has_code payload.order_id) db.orders)
  unfolding handle_midtrans_webhook
  handle_midtrans_webhook-succeeds now db =
      elim (Option-cases (find_by (has_code payload.order_id) db.orders)) [
        | inl e ↦ rw e refl
        | inr (o, e) ↦
            let q = find_by (has_transaction payload.transaction_id) db.payments in
            rw e (
              both-succeed o now db (record_payment parse_date payload o q db)
                (record_payment-succeeds o q db refl))
      ]
