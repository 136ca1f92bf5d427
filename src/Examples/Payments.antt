-- ===== src/Examples/Payments.antt =====
-- Deliveries of the payment webhook, and payment requests, on the small shop.
use commerce_core_api.Common.{
  ℕ, ◌≤◌, ◌≡◌, refl, true, none, some, List, [], ◌∷◌, Text, codes, inl, inr, length, arith,
}
use commerce_core_api.Common.Int.{pos, ◌+ℤ◌, ◌*ℤ◌}
use commerce_core_api.Common.Error.{Commits}
use commerce_core_api.Database.Product.{OptionSnapshot}
use commerce_core_api.Database.Order.{
  OrderStatus, OrderPaymentStatus, OrderShipmentStatus, OrderItemRow, TransactionStatus,
}
use commerce_core_api.Images.{ImageSignature, best_match}
use commerce_core_api.Images.Best.{IsBest, best_match_lem}
use commerce_core_api.Order.Lifecycle.{IsConsistentDb}
use commerce_core_api.Payment.Webhook.{handle_midtrans_webhook}
use commerce_core_api.Payment.Webhook.Outcome.{
  IsPaidOrder, handle_midtrans_webhook-pays, handle_midtrans_webhook-keeps_paid,
}
use commerce_core_api.Order.Lifecycle.Accepts.{succeeds}
use commerce_core_api.Payment.Payload.{MidtransWebhookPayload, parse_int}
use commerce_core_api.Payment.Webhook.Accepts.{IsStorable, handle_midtrans_webhook-succeeds}
use commerce_core_api.Payment.Webhook.Rank.{rank_of, handle_midtrans_webhook-rank}
use commerce_core_api.Payment.Midtrans.{
  format_item_name, format_option_snapshot, build_midtrans_payload,
}
use commerce_core_api.Payment.Midtrans.Names.{format_item_name_bounds, format_item_name_too_long}
use commerce_core_api.Payment.Midtrans.Amounts.{
  items_sum, details_sum, build_midtrans_payload_balanced,
}
use commerce_core_api.Examples.Data.{
  order, order_row, payload, no_date, unpaid_shop, paid_shop, shop-IsConsistent,
}

unpaid_is : IsConsistentDb unpaid_shop
unpaid_is =
    shop-IsConsistent OrderStatus.pending OrderPaymentStatus.unpaid OrderShipmentStatus.pending refl

paid_is : IsConsistentDb paid_shop
paid_is =
    shop-IsConsistent OrderStatus.pending OrderPaymentStatus.paid OrderShipmentStatus.pending refl

-- A capture that the fraud check accepts.
abbrev capture : MidtransWebhookPayload
capture = record payload {
  transaction_status = TransactionStatus.capture;
  fraud_status = some (codes "accept");
}

handle_midtrans_webhook-pays_example :
    Commits (IsPaidOrder (codes "ORD-5")) (handle_midtrans_webhook no_date capture 50 unpaid_shop)
handle_midtrans_webhook-pays_example =
    handle_midtrans_webhook-pays no_date capture 50 unpaid_shop (inr (refl, refl))

handle_midtrans_webhook-keeps_paid_example :
    Commits (IsPaidOrder (codes "ORD-5")) (handle_midtrans_webhook no_date payload 50 paid_shop)
handle_midtrans_webhook-keeps_paid_example =
    handle_midtrans_webhook-keeps_paid no_date payload 50 (codes "ORD-5") paid_shop paid_is refl

handle_midtrans_webhook-rank_example :
    Commits
      (λ db'. rank_of (codes "T1") unpaid_shop ≤ rank_of (codes "T1") db')
      (handle_midtrans_webhook no_date payload 50 unpaid_shop)
handle_midtrans_webhook-rank_example = handle_midtrans_webhook-rank no_date payload 50 unpaid_shop

format_item_name_bounds_example : length (format_item_name order_row) ≤ 50
unfolding format_option_snapshot
format_item_name_bounds_example =
    format_item_name_bounds order_row (λ h. omega arith) (λ h. omega arith)

-- Options of 48 characters.
abbrev long_options : List OptionSnapshot
long_options =
    record { dimension = codes "Size"; value = codes "abcdefghijabcdefghijabcdefghijabcdefghi" }
    ∷ []

abbrev long_row : OrderItemRow
long_row = record order_row { option_snapshot = some long_options }

format_item_name_too_long_example : length (format_item_name long_row) ≡ 55
unfolding format_option_snapshot
format_item_name_too_long_example = format_item_name_too_long long_row (inl refl) (omega arith)

-- The decimal digits of ids play no part in the amounts.
abbrev no_digits : ℕ → Text
no_digits n = []

build_midtrans_payload_balanced_example :
    details_sum
      (pos 0)
      (build_midtrans_payload no_digits [] []
        (order OrderStatus.pending OrderPaymentStatus.unpaid)
        none
        (order_row ∷ [])
        50).item_details
    ≡ pos 24_000
unfolding items_sum ◌+ℤ◌ ◌*ℤ◌ build_midtrans_payload
build_midtrans_payload_balanced_example =
    build_midtrans_payload_balanced no_digits [] []
      (order OrderStatus.pending OrderPaymentStatus.unpaid) none (order_row ∷ []) 50 refl refl

abbrev red_m : List (Text × Text)
red_m = (codes "color", codes "red") ∷ (codes "size", codes "m") ∷ []

abbrev pictures : List ImageSignature
pictures =
    record { image_id = 1; image_key = codes "a"; signatures = [] }
    ∷ record { image_id = 2; image_key = codes "b"; signatures = (codes "color", codes "red") ∷ [] }
    ∷ record {
      image_id = 3;
      image_key = codes "c";
      signatures = (codes "color", codes "blue") ∷ [];
    }
    ∷ []

best_match_lem_example : IsBest red_m pictures (best_match red_m none pictures)
best_match_lem_example = best_match_lem red_m pictures

payload-IsStorable : IsStorable no_date payload
unfolding parse_int
payload-IsStorable = record {
  known = refl;
  amount = refl;
  transaction_time = refl;
  settlement_time = refl;
  order_code = refl;
  transaction_id = refl;
  payment_type = refl;
  fraud_status = refl;
  currency = refl;
  payment_code = refl;
  store = refl;
  bank = refl;
}

handle_midtrans_webhook-succeeds_example :
    succeeds (handle_midtrans_webhook no_date payload 50 unpaid_shop) ≡ true
handle_midtrans_webhook-succeeds_example =
    handle_midtrans_webhook-succeeds no_date payload payload-IsStorable 50 unpaid_shop
