-- ===== src/Payment/Webhook/Outcome.antt =====
-- What a delivery leaves of the order that it names and of the recorded payment.
use commerce_core_api.Common.{
  ℕ, ◌≡◌, refl, Bool, true, false, Option, some, List, Text, arith, Option-cases, inl, inr, ==→eq,
  codes, ◌⊎◌, ==_refl,
}
use commerce_core_api.Common.Error.{Commits, Result, ok, err, ◌>>◌}
use commerce_core_api.Common.Table.{find, find_by, find-find_by, holds, find_by-update}
use commerce_core_api.Database.{Database}
use commerce_core_api.Database.Order.{OrderRow, OrderPaymentStatus, TransactionStatus, payment_is}
use commerce_core_api.Order.Repo.{order_key, has_id, has_code, set_paid, set_expired, set_failed}
use commerce_core_api.Order.Lifecycle.{IsConsistentDb}
use commerce_core_api.Payment.Status.{transaction_is}
use commerce_core_api.Payment.Payload.{MidtransWebhookPayload}
use commerce_core_api.Payment.Repo.{has_transaction}
use commerce_core_api.Payment.Webhook.{
  is_paid_event, record_payment, apply_event, handle_midtrans_webhook,
}
use commerce_core_api.Payment.Webhook.Effects.{record_payment_frame}

abbrev pub is_paid : OrderRow → Bool
is_paid o = payment_is o.payment_status OrderPaymentStatus.paid

-- The order of a code is there and paid.
abbrev pub IsPaidOrder : Text → Database → Type 0
IsPaidOrder code db = holds is_paid (find_by (has_code code) db.orders) ≡ true

-- Such an event takes the branch of a payment.
paid_event :
    (payload : MidtransWebhookPayload)
    → (payload.transaction_status ≡ TransactionStatus.settlement)
      ⊎ ((payload.transaction_status ≡ TransactionStatus.capture)
          × (payload.fraud_status ≡ some (codes "accept")))
    → is_paid_event payload ≡ true
unfolding transaction_is
paid_event payload (inl e) = rw e refl
paid_event payload (inr (e, f)) = rw (e, f) refl

apply_event-pays :
    (payload : MidtransWebhookPayload) (o : OrderRow) (now : ℕ) (db : Database)
    → is_paid_event payload ≡ true
    → find_by (has_code payload.order_id) db.orders ≡ some o
    → Commits (IsPaidOrder payload.order_id) (apply_event payload o now db)
unfolding apply_event
apply_event-pays payload o now db h e = ground (
  arith,
  find_by-update (has_code payload.order_id) (has_id o.id) (set_paid now) db.orders (λ _. refl),
  ==_refl o.id,
)

apply_event-keeps_paid :
    (payload : MidtransWebhookPayload) (o r : OrderRow) (code : Text) (now : ℕ) (db : Database)
    → find_by (has_code code) db.orders ≡ some r
    → is_paid r ≡ true
    → (o.id ≡ r.id → o ≡ r)
    → Commits (IsPaidOrder code) (apply_event payload o now db)
unfolding apply_event
apply_event-keeps_paid payload o r code now db e h same = ground (
  arith,
  same,
  ==→eq r.id o.id,
  find_by-update (has_code code) (has_id o.id) (set_paid now) db.orders (λ _. refl),
  find_by-update (has_code code) (has_id o.id) set_expired db.orders (λ _. refl),
  find_by-update (has_code code) (has_id o.id) set_failed db.orders (λ _. refl),
)

false_is : false ≡ true → ⊥
false_is h = cc

same_row :
    (o r : OrderRow) (t : List OrderRow)
    → find order_key o.id t ≡ some o
    → find order_key r.id t ≡ some r
    → o.id ≡ r.id
    → o ≡ r
same_row o r t e f id = cc

-- The event after the payment has been recorded, which leaves the orders alone.
after_record :
    (code : Text) (payload : MidtransWebhookPayload) (o : OrderRow) (now : ℕ) (db : Database)
    (x : Result (Unit {0} × Database))
    → Commits (λ db'. db' ≡ record db { payments = db'.payments }) x
    → ((db' : Database)
        → db'.orders ≡ db.orders
        → Commits (IsPaidOrder code) (apply_event payload o now db'))
    → Commits (IsPaidOrder code) (◌>>◌ {B = Unit {0}} (λ _. x) (apply_event payload o now) db)
after_record code payload o now db (err y) f event = tt
after_record code payload o now db (ok (u, db')) f event = event db' (rw f refl)

module _ (parse_date : Text → Option ℕ) (payload : MidtransWebhookPayload) (now : ℕ) where
  -- A delivery that commits and whose status is 'settlement', or 'capture' with the fraud status 'accept',
  -- leaves the order that it names paid.
  pub handle_midtrans_webhook-pays :
      (db : Database)
      → (payload.transaction_status ≡ TransactionStatus.settlement)
        ⊎ ((payload.transaction_status ≡ TransactionStatus.capture)
            × (payload.fraud_status ≡ some (codes "accept")))
      → Commits (IsPaidOrder payload.order_id) (handle_midtrans_webhook parse_date payload now db)
  unfolding handle_midtrans_webhook
  handle_midtrans_webhook-pays db h =
      elim (Option-cases (find_by (has_code payload.order_id) db.orders)) [
        | inl e ↦ rw e tt
        | inr (o, e) ↦
            let p = find_by (has_transaction payload.transaction_id) db.payments in
            rw e (
              after_record payload.order_id payload o now db
                (record_payment parse_date payload o p db)
                (record_payment_frame parse_date payload o p db)
                (λ db' same. apply_event-pays payload o now db' (paid_event payload h) (rw same e)))
      ]

  -- In a consistent database, an order that is paid stays paid, whatever is delivered for it or for
  -- another order.
  pub handle_midtrans_webhook-keeps_paid :
      (code : Text) (db : Database)
      → IsConsistentDb db
      → IsPaidOrder code db
      → Commits (IsPaidOrder code) (handle_midtrans_webhook parse_date payload now db)
  unfolding handle_midtrans_webhook
  handle_midtrans_webhook-keeps_paid code db c paid =
      elim (Option-cases (find_by (has_code payload.order_id) db.orders)) [
        | inl e ↦ rw e tt
        | inr (o, e) ↦ elim (Option-cases (find_by (has_code code) db.orders)) [
          | inl f ↦ absurd (false_is (rw f at paid))
          | inr (r, f) ↦
              let p = find_by (has_transaction payload.transaction_id) db.payments in
              let oo =
                find-find_by order_key (has_code payload.order_id) db.orders c.orders_keyed e in
              let rr = find-find_by order_key (has_code code) db.orders c.orders_keyed f in
              rw e (
                after_record code payload o now db (record_payment parse_date payload o p db)
                  (record_payment_frame parse_date payload o p db)
                  (λ db' same.
                    apply_event-keeps_paid payload o r code now db' (rw same f) (rw f at paid)
                      (λ id. same_row o r db.orders oo rr id)))
        ]
      ]
