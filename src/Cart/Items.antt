-- ===== src/Cart/Items.antt =====
-- The table cart_items stays well formed under the statements of src/modules/cart/cart.repo.ts.
use commerce_core_api.Common.{
  ℕ, ◌≤◌, ◌<◌, ◌≡◌, refl, Bool, none, List, [], ◌∷◌, ◌++◌, arith, Bool-cases, inl, inr, ==_refl,
  ==→eq,
}
use commerce_core_api.Common.Table.{
  find_by, update, matches, select, find_by-update, find_by-append,
}
use commerce_core_api.Database.Checkout.{CartItemRow}
use commerce_core_api.Cart.Repo.{is_item, add_quantity, new_item, set_quantity, max_cart_item_qty}
use commerce_core_api.Cart.Quantities.{IsItem, IsItemTable, upserted, replaced, matches-find_by}

update-IsItemTable :
    (next : ℕ) (p : CartItemRow → Bool) (f : CartItemRow → CartItemRow) (t : List CartItemRow)
    → ((r : CartItemRow) → ((f r).cart_id ≡ r.cart_id) × ((f r).variant_id ≡ r.variant_id))
    → ((r : CartItemRow) → IsItem next r → IsItem next (f r))
    → IsItemTable next t
    → IsItemTable next (update p f t)
update-IsItemTable next p f [] same keeps h = tt
update-IsItemTable next p f (x ∷ t) same keeps h =
    let absent : find_by (is_item x.cart_id x.variant_id) (update p f t) ≡ none =
      rw
        (
          find_by-update (is_item x.cart_id x.variant_id) p f t
              (λ r. rw ((same r).0, (same r).1) refl),
          h.1,
        )
        refl in
    let rest = update-IsItemTable next p f t same keeps h.2 in
    elim (Bool-cases (p x)) [
      | inl e ↦ rw e (keeps x h.0, rw ((same x).0, (same x).1) absent, rest)
      | inr e ↦ rw e (h.0, absent, rest)
    ]

append-IsItemTable :
    (next : ℕ) (r : CartItemRow) (t : List CartItemRow)
    → IsItem next r
    → find_by (is_item r.cart_id r.variant_id) t ≡ none
    → IsItemTable next t
    → IsItemTable next (t ++ (r ∷ []))
append-IsItemTable next r [] i e h = (i, refl, tt)
append-IsItemTable next r (x ∷ t) i e h = (
  h.0,
  ground (
    arith,
    find_by-append (is_item x.cart_id x.variant_id) r t,
    h.1,
    ==→eq r.cart_id x.cart_id,
    ==→eq r.variant_id x.variant_id,
    ==_refl x.cart_id,
    ==_refl x.variant_id,
  ),
  append-IsItemTable next r t i (ground arith) h.2,
)

select-none :
    (p q : CartItemRow → Bool) (t : List CartItemRow)
    → find_by p t ≡ none
    → find_by p (select q t) ≡ none
select-none p q [] e = refl
select-none p q (x ∷ t) e = ground (arith, select-none p q t)

pub select-IsItemTable :
    (next : ℕ) (p : CartItemRow → Bool) (t : List CartItemRow)
    → IsItemTable next t
    → IsItemTable next (select p t)
select-IsItemTable next p [] h = tt
select-IsItemTable next p (x ∷ t) h = elim (Bool-cases (p x)) [
  | inl e ↦
      rw e
        (h.0, select-none (is_item x.cart_id x.variant_id) p t h.1, select-IsItemTable next p t h.2)
  | inr e ↦ rw e (select-IsItemTable next p t h.2)
]

module _ (next cart_id variant_id quantity : ℕ) (low : 1 ≤ quantity)
    (high : quantity ≤ max_cart_item_qty) where
  pub replaced-IsItemTable :
      (t : List CartItemRow)
      → IsItemTable next t
      → IsItemTable next (replaced cart_id variant_id quantity t)
  replaced-IsItemTable t =
      update-IsItemTable next (is_item cart_id variant_id) (set_quantity quantity) t
        (λ _. (refl, refl)) (λ r i. (i.0, low, high))

  pub upserted-IsItemTable :
      (t : List CartItemRow)
      → cart_id < next
      → IsItemTable next t
      → IsItemTable next (upserted cart_id variant_id quantity t)
  upserted-IsItemTable t below h = elim (Bool-cases (matches (is_item cart_id variant_id) t)) [
    | inl e ↦ rw e (
        update-IsItemTable next (is_item cart_id variant_id) (add_quantity quantity) t
          (λ r. ground arith) (λ r i. ground arith) h)
    | inr e ↦ rw e (
        append-IsItemTable next (new_item cart_id variant_id quantity) t (below, low, high)
          (ground (arith, matches-find_by (is_item cart_id variant_id) t)) h)
  ]
