-- ===== src/Payment/Webhook/Effects.antt =====
-- What the two halves of `handleMidtransWebhook` change: recording the payment writes order_payments
-- alone, and the event writes one order and the sold counters.
use commerce_core_api.Common.{
  ℕ, ◌≡◌, ◌≢◌, refl, true, Option, none, some, Text, arith, Option-cases, inl, inr, ==→eq,
}
use commerce_core_api.Common.Error.{Commits, Result, ok, err, ◌>>◌}
use commerce_core_api.Common.Table.{find, find_by, update, find-key, find-find_by}
use commerce_core_api.Database.{Database}
use commerce_core_api.Database.Order.{OrderRow, ShipmentRow, PaymentRow, OrderPaymentStatus}
use commerce_core_api.Order.Repo.{order_key, has_id, has_code, set_paid, set_expired, set_failed}
use commerce_core_api.Order.Lifecycle.{
  IsConsistent, IsConsistentDb, is_legal_pair, orders-IsConsistent,
}
use commerce_core_api.Payment.Payload.{MidtransWebhookPayload}
use commerce_core_api.Payment.Repo.{has_transaction, insert_payment, update_payment_status}
use commerce_core_api.Payment.Webhook.{record_payment, apply_event, handle_midtrans_webhook}

module _ (parse_date : Text → Option ℕ) (payload : MidtransWebhookPayload) where
  -- Recording the payment leaves every other table alone.
  pub record_payment_frame :
      (o : OrderRow) (p : Option PaymentRow) (db : Database)
      → Commits
          (λ db'. db' ≡ record db { payments = db'.payments })
          (record_payment parse_date payload o p db)
  unfolding record_payment insert_payment update_payment_status
  record_payment_frame o none db = ground arith
  record_payment_frame o (some p) db = ground arith

event_pairs :
    (f : OrderRow → OrderRow) (o : OrderRow) (db : Database)
    → ((r : OrderRow) → order_key (f r) ≡ order_key r)
    → ((s : ShipmentRow) → is_legal_pair o s ≡ true → is_legal_pair (f o) s ≡ true)
    → find order_key o.id db.orders ≡ some o
    → IsConsistentDb db
    → IsConsistent (update (has_id o.id) f db.orders) db.shipments db.next_order_id
event_pairs f o db ff keep eo c =
    orders-IsConsistent (has_id o.id) f ff
      (λ k o' s eo' es legal.
        ground (arith, find-key order_key k db.orders eo', ==→eq o'.id o.id, keep s))
      c

paid_legal :
    (now : ℕ) (o : OrderRow) (s : ShipmentRow)
    → is_legal_pair o s ≡ true
    → is_legal_pair (set_paid now o) s ≡ true
paid_legal now o s h = ground arith

expired_legal :
    (o : OrderRow) (s : ShipmentRow)
    → o.payment_status ≢ OrderPaymentStatus.paid
    → is_legal_pair o s ≡ true
    → is_legal_pair (set_expired o) s ≡ true
expired_legal o s n h = ground arith

failed_legal :
    (o : OrderRow) (s : ShipmentRow)
    → o.payment_status ≢ OrderPaymentStatus.paid
    → is_legal_pair o s ≡ true
    → is_legal_pair (set_failed o) s ≡ true
failed_legal o s n h = ground arith

pub apply_event-IsConsistent :
    (payload : MidtransWebhookPayload) (o : OrderRow) (now : ℕ) (db : Database)
    → find order_key o.id db.orders ≡ some o
    → IsConsistentDb db
    → Commits IsConsistentDb (apply_event payload o now db)
unfolding apply_event
apply_event-IsConsistent payload o now db eo c = ground (
  arith,
  event_pairs (set_paid now) o db (λ _. refl) (paid_legal now o) eo c,
  λ (n : o.payment_status ≢ OrderPaymentStatus.paid).
      event_pairs set_expired o db (λ _. refl) (λ s. expired_legal o s n) eo c,
  λ (n : o.payment_status ≢ OrderPaymentStatus.paid).
      event_pairs set_failed o db (λ _. refl) (λ s. failed_legal o s n) eo c,
)

-- The event, after a step that left the orders and shipments alone.
event_after :
    (r : Result (Unit {0} × Database)) (o : OrderRow) (payload : MidtransWebhookPayload) (now : ℕ)
    (db : Database)
    → Commits (λ db'. db' ≡ record db { payments = db'.payments }) r
    → find order_key o.id db.orders ≡ some o
    → IsConsistentDb db
    → Commits IsConsistentDb (◌>>◌ {B = Unit {0}} (λ _. r) (apply_event payload o now) db)
event_after (err x) o payload now db frame eo c = tt
event_after (ok (u, db')) o payload now db frame eo c =
    apply_event-IsConsistent payload o now db' (rw frame eo) (rw frame c)

-- In a consistent database, a delivery of any payload that commits keeps orders and shipments in legal
-- states and their ids distinct.
pub handle_midtrans_webhook-IsConsistent :
    (parse_date : Text → Option ℕ) (payload : MidtransWebhookPayload) (now : ℕ) (db : Database)
    → IsConsistentDb db
    → Commits IsConsistentDb (handle_midtrans_webhook parse_date payload now db)
unfolding handle_midtrans_webhook
handle_midtrans_webhook-IsConsistent parse_date payload now db c =
    elim (Option-cases (find_by (has_code payload.order_id) db.orders)) [
      | inl e ↦ rw e tt
      | inr (o, e) ↦
          let p = find_by (has_transaction payload.transaction_id) db.payments in
          let eo = find-find_by order_key (has_code payload.order_id) db.orders c.orders_keyed e in
          rw e (
            event_after (record_payment parse_date payload o p db) o payload now db
              (record_payment_frame parse_date payload o p db) eo c)
    ]
