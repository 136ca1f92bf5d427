-- ===== src/Payment/Repo.antt =====
-- `class PaymentRepo` of src/modules/payment/payment.repo.ts, with the CHECK constraint, the unique
-- index and the VARCHAR limits of order_payments (migrations 20260319183552 and 20260329002931). A limit
-- counts characters, and a text is a list of UTF-16 code units, so the second half of a pair is not
-- counted. A text that is too long by spaces alone, which PostgreSQL would cut, is refused here.
use commerce_core_api.Common.{
  ℕ, suc, Bool, true, not, ◌&&◌, Option, none, some, [], ◌∷◌, ◌++◌, Text, text_eq, is_some, leb,
  if◌then◌else◌,
}
use commerce_core_api.Common.Error.{
  Tx, Result, ok, err, gets, modify, throw_if, internal, ◌>>=◌, ◌>>◌,
}
use commerce_core_api.Common.Table.{find_by, update}
use commerce_core_api.Database.{Database}
use commerce_core_api.Database.Order.{PaymentRow}
use commerce_core_api.Payment.Status.{is_known}
use commerce_core_api.Payment.Payload.{MidtransWebhookPayload, date_column}

abbrev pub has_transaction : Text → PaymentRow → Bool
has_transaction transaction_id p = text_eq p.transaction_id transaction_id

unfoldable pub find_by_transaction_id : Text → Tx Database (Option PaymentRow)
find_by_transaction_id transaction_id =
    gets λ db. find_by (has_transaction transaction_id) db.payments

-- the characters of a text, a surrogate pair being one
abbrev pub characters : Text → ℕ
characters [] = 0
characters (c ∷ t) =
    let rest = characters t in if leb 56_320 c && leb c 57_343 then rest else suc rest

-- `VARCHAR(limit) NOT NULL`
abbrev pub fits : ℕ → Text → Bool
fits limit t = leb (characters t) limit

-- `VARCHAR(limit) NULL`
abbrev pub fits_null : ℕ → Option Text → Bool
fits_null limit none = true
fits_null limit (some t) = fits limit t

abbrev pub fits_columns : PaymentRow → Bool
fits_columns r =
    fits 50 r.order_code
    && fits 100 r.transaction_id
    && fits 50 r.payment_type
    && fits_null 20 r.fraud_status
    && fits 10 r.currency
    && fits_null 100 r.payment_code
    && fits_null 50 r.store
    && fits_null 50 r.bank

unfoldable pub insert_payment : PaymentRow → Tx Database (Unit {0})
insert_payment input = do
  throw_if (not (fits_columns input)) internal
  throw_if (not (is_known input.transaction_status)) internal
  existing ← gets λ db. find_by (has_transaction input.transaction_id) db.payments
  throw_if (is_some existing) internal
  modify λ db. record db { payments = db.payments ++ (input ∷ []) }

abbrev pub set_payment : MidtransWebhookPayload → Option ℕ → PaymentRow → PaymentRow
set_payment payload settlement_time p = record p {
  transaction_status = payload.transaction_status;
  fraud_status = payload.fraud_status;
  settlement_time = settlement_time;
}

abbrev pub lift_result : {A : Type 0} → Result A → Tx Database A
lift_result (ok a) db = ok (a, db)
lift_result (err e) db = err e

-- `updatePaymentStatus`
unfoldable pub update_payment_status :
    (Text → Option ℕ) → Text → MidtransWebhookPayload → Tx Database (Unit {0})
update_payment_status parse_date transaction_id payload = do
  settlement_time ← lift_result (date_column parse_date payload.settlement_time)
  throw_if (not (fits_null 20 payload.fraud_status)) internal
  throw_if (not (is_known payload.transaction_status)) internal
  modify λ db. record db {
    payments =
        update (has_transaction transaction_id) (set_payment payload settlement_time) db.payments;
  }
