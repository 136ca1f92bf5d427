-- ===== src/Cart/Quantities.antt =====
-- The quantities of a cart's items under the statements of src/modules/cart/cart.repo.ts.
use commerce_core_api.Common.{
  ℕ, suc, ◌+◌, ◌≤◌, ◌<◌, ◌≡◌, refl, Bool, true, not, ◌&&◌, Option, none, some, List, [], ◌∷◌, ◌++◌,
  ◌==◌, min, if◌then◌else◌, arith, Bool-cases, Option-cases, is_some, inl, inr, ==_refl, ==→eq,
}
use commerce_core_api.Common.Table.{
  find_by, update, matches, select, find_by-update, find_by-append, find_by-holds,
}
use commerce_core_api.Database.Checkout.{CartItemRow}
use commerce_core_api.Cart.Repo.{is_item, add_quantity, new_item, set_quantity, max_cart_item_qty}

abbrev pub quantity_of : Option CartItemRow → ℕ
quantity_of none = 0
quantity_of (some ci) = ci.quantity

-- The quantity of a variant in a cart, 0 where it is not there.
abbrev pub quantity_in : ℕ → ℕ → List CartItemRow → ℕ
quantity_in cart_id variant_id items = quantity_of (find_by (is_item cart_id variant_id) items)

-- A quantity between 1 and the maximum, in a cart whose id has been given out.
abbrev pub IsItem : ℕ → CartItemRow → Type 0
IsItem next ci = (ci.cart_id < next) × (1 ≤ ci.quantity) × (ci.quantity ≤ max_cart_item_qty)

-- Besides, no two rows have the same cart and variant.
abbrev pub IsItemTable : ℕ → List CartItemRow → Type 0
IsItemTable next [] = Unit
IsItemTable next (ci ∷ t) =
    IsItem next ci × (find_by (is_item ci.cart_id ci.variant_id) t ≡ none) × IsItemTable next t

pub find_by-IsItem :
    (next : ℕ) (p : CartItemRow → Bool) (t : List CartItemRow) {ci : CartItemRow}
    → IsItemTable next t
    → find_by p t ≡ some ci
    → IsItem next ci
find_by-IsItem next p [] h e = cc
find_by-IsItem next p (x ∷ t) {ci} h e = elim (Bool-cases (p x)) [
  | inl c ↦ let f : x ≡ ci = ground arith in rw f at h.0
  | inr c ↦ find_by-IsItem next p t {ci = ci} h.2 (ground arith)
]

pub quantity_in_at_most :
    (next cart_id variant_id : ℕ) (t : List CartItemRow)
    → IsItemTable next t
    → quantity_in cart_id variant_id t ≤ max_cart_item_qty
quantity_in_at_most next cart_id variant_id t h =
    elim (Option-cases (find_by (is_item cart_id variant_id) t)) [
      | inl e ↦ rw e (omega arith)
      | inr (ci, e) ↦ rw e ((find_by-IsItem next (is_item cart_id variant_id) t h e).2)
    ]

-- A cart whose id is still to be given out has no items.
pub quantity_in-new :
    (next variant_id : ℕ) (t : List CartItemRow)
    → IsItemTable next t
    → quantity_in next variant_id t ≡ 0
quantity_in-new next variant_id [] h = refl
quantity_in-new next variant_id (x ∷ t) h = ground (arith, quantity_in-new next variant_id t h.2)

pub widen-IsItemTable :
    (next : ℕ) (t : List CartItemRow) → IsItemTable next t → IsItemTable (suc next) t
widen-IsItemTable next [] h = tt
widen-IsItemTable next (x ∷ t) h = ((omega arith, h.0.1, h.0.2), h.1, widen-IsItemTable next t h.2)

pub matches-find_by :
    (p : CartItemRow → Bool) (t : List CartItemRow) → matches p t ≡ is_some (find_by p t)
matches-find_by p [] = refl
matches-find_by p (x ∷ t) = ground (arith, matches-find_by p t)

pub quantity_in-positive :
    (next cart_id variant_id : ℕ) (t : List CartItemRow)
    → IsItemTable next t
    → matches (is_item cart_id variant_id) t ≡ true
    → 1 ≤ quantity_in cart_id variant_id t
quantity_in-positive next cart_id variant_id t h m =
    elim (Option-cases (find_by (is_item cart_id variant_id) t)) [
      | inl e ↦ ground (arith, matches-find_by (is_item cart_id variant_id) t)
      | inr (ci, e) ↦ rw e ((find_by-IsItem next (is_item cart_id variant_id) t h e).1)
    ]

module _ (cart_id variant_id : ℕ) where
  abbrev pub upserted : ℕ → List CartItemRow → List CartItemRow
  upserted quantity t =
      if matches (is_item cart_id variant_id) t
      then update (is_item cart_id variant_id) (add_quantity quantity) t
      else t ++ (new_item cart_id variant_id quantity ∷ [])

  abbrev pub removed : List CartItemRow → List CartItemRow
  removed = select (λ ci. not (is_item cart_id variant_id ci))

  abbrev pub replaced : ℕ → List CartItemRow → List CartItemRow
  replaced quantity = update (is_item cart_id variant_id) (set_quantity quantity)

  pub is_item-add :
      (k w quantity : ℕ) (r : CartItemRow) → is_item k w (add_quantity quantity r) ≡ is_item k w r
  is_item-add k w quantity r = ground arith

  pub quantity_in-upserted :
      (next quantity k w : ℕ) (t : List CartItemRow)
      → IsItemTable next t
      → 1 ≤ quantity
      → quantity ≤ max_cart_item_qty
      → quantity_in k w (upserted quantity t) ≡ (
          if k == cart_id && w == variant_id
          then min (quantity_in k w t + quantity) max_cart_item_qty
          else quantity_in k w t)
  quantity_in-upserted next quantity k w t h low high =
      elim (Option-cases (find_by (is_item k w) t)) [
        | inl e ↦ ground (
          arith,
          find_by-update (is_item k w) (is_item cart_id variant_id) (add_quantity quantity) t
              (is_item-add k w quantity),
          find_by-append (is_item k w) (new_item cart_id variant_id quantity) t,
          matches-find_by (is_item cart_id variant_id) t,
          ==→eq k cart_id,
          ==→eq w variant_id,
        )
        | inr (r, e) ↦ ground (
          arith,
          find_by-update (is_item k w) (is_item cart_id variant_id) (add_quantity quantity) t
              (is_item-add k w quantity),
          find_by-append (is_item k w) (new_item cart_id variant_id quantity) t,
          find_by-holds (is_item k w) t e,
          quantity_in_at_most next k w t h,
          matches-find_by (is_item cart_id variant_id) t,
          ==→eq k cart_id,
          ==→eq w variant_id,
          ==→eq r.cart_id k,
          ==→eq r.variant_id w,
          ==_refl k,
          ==_refl w,
        )
      ]

  pub quantity_in-replaced :
      (quantity k w : ℕ) (t : List CartItemRow)
      → quantity_in k w (replaced quantity t) ≡ (
          if (k == cart_id && w == variant_id) && matches (is_item cart_id variant_id) t
          then quantity
          else quantity_in k w t)
  quantity_in-replaced quantity k w t = elim (Option-cases (find_by (is_item k w) t)) [
    | inl e ↦ ground (
      arith,
      find_by-update (is_item k w) (is_item cart_id variant_id) (set_quantity quantity) t
          (λ _. refl),
      matches-find_by (is_item cart_id variant_id) t,
      ==→eq k cart_id,
      ==→eq w variant_id,
    )
    | inr (r, e) ↦ ground (
      arith,
      find_by-update (is_item k w) (is_item cart_id variant_id) (set_quantity quantity) t
          (λ _. refl),
      find_by-holds (is_item k w) t e,
      matches-find_by (is_item cart_id variant_id) t,
      ==→eq k cart_id,
      ==→eq w variant_id,
      ==→eq r.cart_id k,
      ==→eq r.variant_id w,
      ==_refl k,
      ==_refl w,
    )
  ]

  pub quantity_in-removed :
      (k w : ℕ) (t : List CartItemRow)
      → quantity_in k w (removed t)
        ≡ (if k == cart_id && w == variant_id then 0 else quantity_in k w t)
  quantity_in-removed k w [] = ground arith
  quantity_in-removed k w (x ∷ t) = ground (arith, quantity_in-removed k w t, ==_refl k, ==_refl w)
