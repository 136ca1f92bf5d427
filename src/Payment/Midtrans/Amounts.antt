-- ===== src/Payment/Midtrans/Amounts.antt =====
-- The amounts of a payment request.
use commerce_core_api.Common.{ℕ, ◌≡◌, ◌∙◌, ap, Option, List, [], ◌∷◌, ◌++◌, map, Text}
use commerce_core_api.Common.Int.{ℤ, pos, ◌+ℤ◌, ◌*ℤ◌, *ℤ_one}
use commerce_core_api.Database.Order.{OrderRow, OrderItemRow}
use commerce_core_api.Payment.Midtrans.{
  MidtransItem, item_detail, shipping_detail, build_midtrans_payload,
}

-- The sum of price times quantity over order items, and over the lines of a request.
unfoldable pub items_sum : ℤ → List OrderItemRow → ℤ
items_sum acc [] = acc
items_sum acc (i ∷ t) = items_sum (acc +ℤ i.price *ℤ pos i.quantity) t

pub details_sum : ℤ → List MidtransItem → ℤ
details_sum acc [] = acc
details_sum acc (i ∷ t) = details_sum (acc +ℤ i.price *ℤ pos i.quantity) t

details_sum-map :
    (string_of : ℕ → Text) (o : OrderRow) (acc : ℤ) (items : List OrderItemRow)
    → details_sum acc (map (item_detail string_of) items ++ (shipping_detail o ∷ []))
      ≡ items_sum acc items +ℤ o.shipping_cost
unfolding details_sum items_sum
details_sum-map string_of o acc [] = ap (λ x. acc +ℤ x) (*ℤ_one o.shipping_cost)
details_sum-map string_of o acc (i ∷ t) =
    details_sum-map string_of o (acc +ℤ i.price *ℤ pos i.quantity) t

-- If an order's total is its subtotal and shipping cost, and its subtotal is that of its items, then
-- the lines of the payment request add up to its gross amount.
pub build_midtrans_payload_balanced :
    (string_of : ℕ → Text) (url start_time : Text) (o : OrderRow) (display_name : Option Text)
    (items : List OrderItemRow) (now : ℕ)
    → o.subtotal +ℤ o.shipping_cost ≡ o.total
    → items_sum (pos 0) items ≡ o.subtotal
    → let p = build_midtrans_payload string_of url start_time o display_name items now in
      details_sum (pos 0) p.item_details ≡ p.gross_amount
unfolding build_midtrans_payload
build_midtrans_payload_balanced string_of url start_time o display_name items now total subtotal =
    details_sum-map string_of o (pos 0) items ∙ ap (λ x. x +ℤ o.shipping_cost) subtotal ∙ total
