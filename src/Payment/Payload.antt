-- ===== src/Payment/Payload.antt =====
-- `MidtransWebhookPayload` of src/modules/payment/payment.schema.ts, after validation, and
-- src/modules/payment/payment.mapper.ts. The columns raw_payload, created_at and updated_at are left
-- out: nothing reads them.
use commerce_core_api.Common.{
  ℕ, zero, suc, ◌+◌, ◌-◌, ◌*◌, Bool, ◌&&◌, ◌||◌, Option, none, some, List, [], ◌∷◌, Text, codes,
  text_eq, is_blank, leb, ltb, ◌==◌, if◌then◌else◌,
}
use commerce_core_api.Common.Int.{ℤ, pos, negsuc}
use commerce_core_api.Common.Error.{Result, ok, err, internal}
use commerce_core_api.Database.Order.{PaymentRow, TransactionStatus}

pub record VaNumber : Type 0 where
  pub bank : Text
  pub va_number : Text

pub record MidtransWebhookPayload : Type 0 where
  pub transaction_id : Text
  pub order_id : Text
  pub payment_type : Text
  pub transaction_status : TransactionStatus
  pub fraud_status : Option Text
  pub gross_amount : Text
  pub currency : Text
  pub status_code : Text
  pub signature_key : Text
  pub payment_code : Option Text
  pub store : Option Text
  pub bank : Option Text
  pub va_numbers : Option (List VaNumber)
  pub transaction_time : Option Text
  pub settlement_time : Option Text

abbrev is_digit : ℕ → Bool
is_digit c = leb b'0' c && leb c b'9'

abbrev is_space : ℕ → Bool
is_space c = leb 9 c && leb c 13 || c == 32 || c == 160

-- The digits read so far; `none` before the first one.
digits : Option ℕ → Text → Option ℕ
digits n [] = n
digits n (c ∷ s) =
    let more = digits (some ((elim n [ none ↦ 0 | some k ↦ k ]) * 10 + (c - b'0'))) s in
    if is_digit c then more else n

abbrev negate : ℕ → ℤ
negate zero = pos 0
negate (suc n) = negsuc n

-- `parseInt(s, 10)`; `none` is NaN. Leading white space is that of ASCII and the no-break space.
unfoldable pub parse_int : Text → Option ℤ
unfolding digits
parse_int [] = none
parse_int (c ∷ s) =
    let skipped = parse_int s in
    if is_space c
    then skipped
    else if c == b'-'
    then elim (digits none s) [ none ↦ none | some n ↦ some (negate n) ]
    else if c == b'+'
    then elim (digits none s) [ none ↦ none | some n ↦ some (pos n) ]
    else elim (digits none (c ∷ s)) [ none ↦ none | some n ↦ some (pos n) ]

-- The columns of type INTEGER: the driver's value is refused out of range, and so is NaN.
abbrev pub in_int4 : ℤ → Bool
in_int4 (pos n) = ltb n 2_147_483_648
in_int4 (negsuc n) = ltb n 2_147_483_648

abbrev pub int4_column : Option ℤ → Result ℤ
int4_column none = err internal
int4_column (some z) = if in_int4 z then ok z else err internal

-- `paymentCode` and `bank`
abbrev pub payment_code_and_bank : MidtransWebhookPayload → Option Text × Option Text
payment_code_and_bank p =
    let code = if text_eq p.payment_type (codes "cstore") then p.payment_code else none in
    if text_eq p.payment_type (codes "bank_transfer")
    then elim p.va_numbers [
      | none ↦ (code, p.bank)
      | some vs ↦ elim vs [ [] ↦ (code, p.bank) | va ∷ rest ↦ (some va.va_number, some va.bank) ]
    ]
    else (code, p.bank)

-- `t ? new Date(t) : null`, with the runtime's parser of dates; the driver refuses an invalid Date.
abbrev pub date_column : (Text → Option ℕ) → Option Text → Result (Option ℕ)
date_column parse_date t = if is_blank t then ok none else elim t [
  | none ↦ ok none
  | some s ↦ elim (parse_date s) [ none ↦ err internal | some d ↦ ok (some d) ]
]

-- `mapMidtransWebhookToPayment`, with the failures of storing its numbers and dates; the limits of its
-- texts are those of `insertPayment`
unfoldable pub map_midtrans_webhook_to_payment :
    (Text → Option ℕ) → MidtransWebhookPayload → ℕ → Result PaymentRow
unfolding parse_int
map_midtrans_webhook_to_payment parse_date p order_id =
    let codes_of = payment_code_and_bank p in
    elim (int4_column (parse_int p.gross_amount)) [
      | err e ↦ err e
      | ok amount ↦ elim (date_column parse_date p.transaction_time) [
        | err e ↦ err e
        | ok transaction_time ↦ elim (date_column parse_date p.settlement_time) [
          | err e ↦ err e
          | ok settlement_time ↦ ok (record {
            order_id = order_id;
            order_code = p.order_id;
            transaction_id = p.transaction_id;
            payment_type = p.payment_type;
            transaction_status = p.transaction_status;
            fraud_status = p.fraud_status;
            gross_amount = amount;
            currency = p.currency;
            payment_code = codes_of.0;
            store = p.store;
            bank = codes_of.1;
            transaction_time = transaction_time;
            settlement_time = settlement_time;
          })
        ]
      ]
    ]
