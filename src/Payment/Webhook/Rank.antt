-- ===== src/Payment/Webhook/Rank.antt =====
-- The recorded status of a transaction in the order of `PAYMENT_STATUS_RANK` of
-- src/modules/payment/payment.constants.ts.
use commerce_core_api.Common.{
  ℕ, ◌≤◌, ◌≡◌, refl, Option, none, some, Text, arith, Option-cases, inl, inr,
}
use commerce_core_api.Common.Error.{Commits, Commits-map, Result, Result-cases, ok, err, ◌>>◌}
use commerce_core_api.Common.Table.{find_by, update, find_by-update, find_by-holds}
use commerce_core_api.Database.{Database}
use commerce_core_api.Database.Order.{OrderRow, PaymentRow}
use commerce_core_api.Order.Repo.{has_code}
use commerce_core_api.Payment.Status.{payment_status_rank}
use commerce_core_api.Payment.Payload.{MidtransWebhookPayload, date_column}
use commerce_core_api.Payment.Repo.{has_transaction, update_payment_status, set_payment}
use commerce_core_api.Payment.Webhook.{record_payment, apply_event, handle_midtrans_webhook}

-- The rank of a recorded payment, 0 where there is none.
abbrev pub rank_in : Option PaymentRow → ℕ
rank_in none = 0
rank_in (some p) = payment_status_rank p.transaction_status

abbrev pub rank_of : Text → Database → ℕ
rank_of id db = rank_in (find_by (has_transaction id) db.payments)

module _ (parse_date : Text → Option ℕ) (payload : MidtransWebhookPayload) where
  set_payment-rank :
      (d : Option ℕ) (q : PaymentRow) (db : Database)
      → find_by (has_transaction payload.transaction_id) db.payments ≡ some q
      → payment_status_rank q.transaction_status ≤ payment_status_rank payload.transaction_status
      → rank_in (find_by (has_transaction payload.transaction_id) db.payments)
        ≤ rank_in (
            find_by
              (has_transaction payload.transaction_id)
              (update (has_transaction payload.transaction_id) (set_payment payload d) db.payments))
  set_payment-rank d q db e h =
      rw
        (
          find_by-update (has_transaction payload.transaction_id)
              (has_transaction payload.transaction_id) (set_payment payload d) db.payments
              (λ _. refl),
          e,
          find_by-holds (has_transaction payload.transaction_id) db.payments e,
        )
        h

  update_payment_status-rank :
      (q : PaymentRow) (db : Database)
      → find_by (has_transaction payload.transaction_id) db.payments ≡ some q
      → payment_status_rank q.transaction_status ≤ payment_status_rank payload.transaction_status
      → Commits
          (λ db'. rank_of payload.transaction_id db ≤ rank_of payload.transaction_id db')
          (update_payment_status parse_date payload.transaction_id payload db)
  unfolding update_payment_status
  update_payment_status-rank q db e h =
      elim (Result-cases (date_column parse_date payload.settlement_time)) [
        | inl (d, f) ↦ ground (arith, set_payment-rank d q db e h)
        | inr (x, f) ↦ rw f tt
      ]

  record_payment-rank :
      (o : OrderRow) (q : Option PaymentRow) (db : Database)
      → find_by (has_transaction payload.transaction_id) db.payments ≡ q
      → Commits
          (λ db'. rank_of payload.transaction_id db ≤ rank_of payload.transaction_id db')
          (record_payment parse_date payload o q db)
  unfolding record_payment
  record_payment-rank o none db e = rw e (any (record_payment parse_date payload o none db))
    where
      any :
          (r : Result (Unit {0} × Database))
          → Commits (λ db'. 0 ≤ rank_of payload.transaction_id db') r
      any (ok (u, db')) = omega arith
      any (err x) = tt
  record_payment-rank o (some q) db e = ground (arith, update_payment_status-rank q db e)

  event_payments :
      (o : OrderRow) (now : ℕ) (db : Database)
      → Commits (λ db'. db'.payments ≡ db.payments) (apply_event payload o now db)
  unfolding apply_event
  event_payments o now db = ground arith

  -- A delivery that commits never lowers the rank of the status that is recorded for its transaction.
  pub handle_midtrans_webhook-rank :
      (now : ℕ) (db : Database)
      → Commits
          (λ db'. rank_of payload.transaction_id db ≤ rank_of payload.transaction_id db')
          (handle_midtrans_webhook parse_date payload now db)
  unfolding handle_midtrans_webhook
  handle_midtrans_webhook-rank now db =
      elim (Option-cases (find_by (has_code payload.order_id) db.orders)) [
        | inl e ↦ rw e tt
        | inr (o, e) ↦
            let p = find_by (has_transaction payload.transaction_id) db.payments in
            rw e
              (after o (record_payment parse_date payload o p db) (record_payment-rank o p db refl))
      ]
    where
      after :
          (o : OrderRow) (x : Result (Unit {0} × Database))
          → Commits
              (λ db'. rank_of payload.transaction_id db ≤ rank_of payload.transaction_id db')
              x
          → Commits
              (λ db'. rank_of payload.transaction_id db ≤ rank_of payload.transaction_id db')
              (◌>>◌ {B = Unit {0}} (λ _. x) (apply_event payload o now) db)
      after o (err y) h = tt
      after o (ok (u, d)) h =
          Commits-map (λ db'. db'.payments ≡ d.payments) _ (apply_event payload o now d)
            (λ db' same. rw same h) (event_payments o now d)
