-- ===== src/Payment/Midtrans/Names.antt =====
-- The length of an item's name in a payment request, which the builder means to cut to 50.
use commerce_core_api.Common.{
  ℕ, ◌+◌, ◌-◌, ◌≤◌, ◌<◌, ◌≡◌, ◌≢◌, ◌⊎◌, ◌++◌, Text, length, take, length-append, length-take, codes,
  arith, ltb, leb, Bool-cases, inl, inr,
}
use commerce_core_api.Database.Order.{OrderItemRow}
use commerce_core_api.Payment.Midtrans.{format_item_name, format_option_snapshot, slice_to}

-- The length of the formatted options of an item.
abbrev pub option_length : OrderItemRow → ℕ
option_length item = length (format_option_snapshot item.option_snapshot)

dots : (s : Text) → length (s ++ codes "...") ≡ length s + 3
dots s = length-append s (codes "...")

-- A cut with dots is as long as asked, if there is room for the dots.
cut_bound : (s : Text) (n : ℕ) → 3 ≤ n → length (slice_to s n 3 ++ codes "...") ≤ n
cut_bound s n h = ground (arith, dots (take (n - 3) s), length-take (n - 3) s)

-- Unless the options take 48 or 49 characters, the name has at most 50.
pub format_item_name_bounds :
    (item : OrderItemRow)
    → option_length item ≢ 48
    → option_length item ≢ 49
    → length (format_item_name item) ≤ 50
unfolding format_item_name
format_item_name_bounds item h48 h49 =
    let option = format_option_snapshot item.option_snapshot in
    let remaining = 50 - length option in
    let name = item.product_name in
    elim (Bool-cases (leb 50 (length option))) [
      | inl long ↦ rw long (cut_bound option 50 (omega arith))
      | inr short ↦
          let small : length option ≤ 47 = ground arith in
          elim (Bool-cases (ltb remaining (length name))) [
            | inl cut ↦
                rw (short, cut)
                  (omega (
                    arith,
                    length-append (slice_to name remaining 3 ++ codes "...") option,
                    cut_bound name remaining (omega arith),
                  ))
            | inr fits ↦
                let room : length name ≤ remaining = ground arith in
                rw (short, fits) (omega (arith, length-append name option))
          ]
    ]

-- If they take 48 or 49 and the product's name does not fit into the rest, the name is not cut: it has
-- 50 characters more than the product's name.
pub format_item_name_too_long :
    (item : OrderItemRow)
    → (option_length item ≡ 48) ⊎ (option_length item ≡ 49)
    → 50 < length item.product_name + option_length item
    → length (format_item_name item) ≡ length item.product_name + 50
unfolding format_item_name
format_item_name_too_long item h long =
    let option = format_option_snapshot item.option_snapshot in
    let remaining = 50 - length option in
    let name = item.product_name in
    let cut = length name - (3 - remaining) in
    ground (
      arith,
      length-append (take cut name ++ codes "...") option,
      dots (take cut name),
      length-take cut name,
    )
