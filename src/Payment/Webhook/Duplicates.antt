-- ===== src/Payment/Webhook/Duplicates.antt =====
-- A webhook that the payment provider delivers twice.
use commerce_core_api.Common.{ℕ, ◌≡◌, Bool, true, ◌||◌, Option, none, some, Text, ltb}
use commerce_core_api.Common.Error.{Result, ok, err}
use commerce_core_api.Common.Table.{find_by, holds}
use commerce_core_api.Database.{Database}
use commerce_core_api.Database.Order.{OrderRow, PaymentRow}
use commerce_core_api.Order.Repo.{has_code}
use commerce_core_api.Payment.Status.{payment_status_rank, transaction_is}
use commerce_core_api.Payment.Payload.{MidtransWebhookPayload}
use commerce_core_api.Payment.Repo.{has_transaction}
use commerce_core_api.Payment.Webhook.{apply_event, handle_midtrans_webhook}

-- A payment on which recording the payload again does nothing.
abbrev is_recorded : MidtransWebhookPayload → PaymentRow → Bool
is_recorded payload p =
    transaction_is p.transaction_status payload.transaction_status
    || ltb (payment_status_rank payload.transaction_status)
        (payment_status_rank p.transaction_status)

module _ (parse_date : Text → Option ℕ) (payload : MidtransWebhookPayload) where
  abbrev Recorded : Database → Type 0
  Recorded db =
      holds (is_recorded payload) (find_by (has_transaction payload.transaction_id) db.payments)
      ≡ true

  -- The row that is made for a first delivery.
  abbrev IsRowOf : Result PaymentRow → Type 0
  IsRowOf (ok r) =
      (r.transaction_id ≡ payload.transaction_id)
      × (r.transaction_status ≡ payload.transaction_status)
  IsRowOf (err e) = Unit

-- The order on which the event acts a second time without effect.
abbrev IsSettledBy : MidtransWebhookPayload → ℕ → Database → Option OrderRow → Type 0
IsSettledBy payload now db none = ⊥
IsSettledBy payload now db (some o) = apply_event payload o now db ≡ ok (tt, db)

abbrev Settled : MidtransWebhookPayload → ℕ → Database → Type 0
Settled payload now db = IsSettledBy payload now db (find_by (has_code payload.order_id) db.orders)

module _ (parse_date : Text → Option ℕ) (payload : MidtransWebhookPayload) (now later : ℕ) where
  abbrev Again : Database → Type 0
  Again db = handle_midtrans_webhook parse_date payload later db ≡ ok (tt, db)
