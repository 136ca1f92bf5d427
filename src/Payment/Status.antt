-- ===== src/Payment/Status.antt =====
-- src/modules/payment/payment.constants.ts, and tests on transaction statuses.
use commerce_core_api.Common.{
  ℕ, ◌≡◌, refl, Bool, true, false, ◌&&◌, List, Text, text_eq, text_eq_refl, ◌==◌,
}
use commerce_core_api.Database.Order.{TransactionStatus}

-- `PAYMENT_STATUS_RANK[status] ?? 0`; a status that is the name of a member of every JavaScript object, such
-- as "constructor", which the CHECK of the table refuses to store, has the rank 0 here, too.
abbrev pub payment_status_rank : TransactionStatus → ℕ
payment_status_rank TransactionStatus.pending = 1
payment_status_rank TransactionStatus.authorize = 2
payment_status_rank TransactionStatus.capture = 3
payment_status_rank TransactionStatus.settlement = 4
payment_status_rank TransactionStatus.expire = 5
payment_status_rank TransactionStatus.cancel = 5
payment_status_rank TransactionStatus.deny = 5
payment_status_rank TransactionStatus.failure = 5
payment_status_rank TransactionStatus.refund = 6
payment_status_rank TransactionStatus.partial_refund = 6
payment_status_rank (TransactionStatus.other s) = 0

abbrev transaction_tag : TransactionStatus → ℕ
transaction_tag TransactionStatus.pending = 0
transaction_tag TransactionStatus.authorize = 1
transaction_tag TransactionStatus.capture = 2
transaction_tag TransactionStatus.settlement = 3
transaction_tag TransactionStatus.expire = 4
transaction_tag TransactionStatus.cancel = 5
transaction_tag TransactionStatus.deny = 6
transaction_tag TransactionStatus.failure = 7
transaction_tag TransactionStatus.refund = 8
transaction_tag TransactionStatus.partial_refund = 9
transaction_tag (TransactionStatus.other s) = 10

abbrev other_text : TransactionStatus → Text
other_text (TransactionStatus.other s) = s
other_text _ = List.[]

-- `===` on transaction statuses
unfoldable pub transaction_is : TransactionStatus → TransactionStatus → Bool
transaction_is a b = transaction_tag a == transaction_tag b && text_eq (other_text a) (other_text b)

pub transaction_is_refl : (a : TransactionStatus) → transaction_is a a ≡ true
unfolding transaction_is
transaction_is_refl (TransactionStatus.other s) = text_eq_refl s
transaction_is_refl _ = refl

-- the CHECK constraint order_payments_status_chk
abbrev pub is_known : TransactionStatus → Bool
is_known (TransactionStatus.other s) = false
is_known _ = true
