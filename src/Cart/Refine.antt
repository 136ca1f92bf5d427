-- ===== src/Cart/Refine.antt =====
-- What src/modules/cart/cart.service.ts promises, as a map from users and variants to quantities, and the
-- requests that change it.
pub mod Handlers
pub mod Requests
use commerce_core_api.Common.{
  ℕ, suc, zero, ◌+◌, ◌≤◌, ◌<◌, ◌≡◌, ◌∙◌, refl, sym, ap, Bool, true, false, not, ◌&&◌, Option, none,
  some, List, [], ◌∷◌, ◌++◌, ◌==◌, ltb, min, if◌then◌else◌, arith, Bool-cases, Option-cases,
  is_some, inl, inr, ==_refl, ==→eq, All,
}
use commerce_core_api.Common.Error.{Result, ok, err, not_found, bad_request}
use commerce_core_api.Common.Steps.{Steps, statement, fail_if, or_fail, answer, after, ◌>>=◌, ◌>>◌}
use commerce_core_api.Common.Table.{find_by, update, matches, select, find}
use commerce_core_api.Database.{Database}
use commerce_core_api.Database.Product.{VariantRow, is_active}
use commerce_core_api.Database.Checkout.{CartRow, CartItemRow}
use commerce_core_api.Product.{variant_key}
use commerce_core_api.Cart.{resolve_user_cart, add_item, update_item, delete_item, clamp_quantity}
use commerce_core_api.Cart.Repo.{
  is_cart_of, is_item, max_cart_item_qty, find_variant_for_cart, upsert_cart_item,
  update_cart_item_quantity, delete_cart_item,
}
use commerce_core_api.Cart.Quantities.{
  IsItemTable, quantity_in, quantity_in-positive, matches-find_by, upserted, removed, replaced,
  quantity_in-upserted, quantity_in-removed, quantity_in-replaced,
}
use commerce_core_api.Cart.Items.{select-IsItemTable, replaced-IsItemTable, upserted-IsItemTable}
use commerce_core_api.Cart.Held.{
  held, IsCartDb, IsResolved, find_by-below, other_cart, resolve_user_cart-IsResolved,
}

-- For each user and variant, the quantity that the user's cart holds.
abbrev pub Basket : Type 0
Basket = ℕ → ℕ → ℕ

abbrev pub put : ℕ → ℕ → ℕ → Basket → Basket
put user_id variant_id quantity b a w = if a == user_id && w == variant_id then quantity else b a w

pub data Request : Type 0 where
  add change : ℕ → ℕ → ℕ → Request
  drop : ℕ → ℕ → Request

abbrev pub handle : Request → Steps Database (Unit {0})
handle (add u v q) = add_item u v q
handle (change u v q) = update_item u v q
handle (drop u v) = delete_item u v

-- What the schemas let through.
abbrev pub IsValid : Request → Type 0
IsValid (add u v q) = (1 ≤ q) × (q ≤ max_cart_item_qty)
IsValid (change u v q) = q ≤ max_cart_item_qty
IsValid (drop u v) = Unit

abbrev pub add_spec : Option VariantRow → ℕ → ℕ → ℕ → Basket → Result (Unit {0}) × Basket
add_spec none u v q b = (err (not_found "Variant not found"), b)
add_spec (some x) u v q b =
    if is_active x.status
    then (ok tt, put u v (min (b u v + q) max_cart_item_qty) b)
    else (err (bad_request "Variant is not available"), b)

abbrev pub change_spec : ℕ → ℕ → ℕ → Basket → Result (Unit {0}) × Basket
change_spec u v zero b = (ok tt, put u v 0 b)
change_spec u v (suc n) b =
    if b u v == 0 then (err (not_found "Cart item not found"), b) else (ok tt, put u v (suc n) b)

abbrev pub spec : List VariantRow → Request → Basket → Result (Unit {0}) × Basket
spec variants (add u v q) b = add_spec (find variant_key v variants) u v q b
spec variants (change u v q) b = change_spec u v q b
spec variants (drop u v) b = (ok tt, put u v 0 b)

-- The same answer, and the same quantities afterwards; the tables stay well formed.
abbrev pub Refines : Database → Result (Unit {0}) × Database → Result (Unit {0}) × Basket → Type 0
Refines db r s =
    IsCartDb (after r)
    × ((after r).variants ≡ db.variants)
    × (answer r ≡ s.0)
    × ((a w : ℕ) → held (after r) a w ≡ s.1 a w)
