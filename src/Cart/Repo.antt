-- ===== src/Cart/Repo.antt =====
-- `class CartRepo` of src/modules/cart/cart.repo.ts: each query as a transaction step, with the unique
-- indexes on carts.user_id and on (cart_items.cart_id, cart_items.variant_id). `clearCartByUserId` is in
-- Checkout.Repo. The random id of a cart is the next number.
use commerce_core_api.Common.{
  ℕ, suc, zero, ◌+◌, Bool, false, not, ◌&&◌, Option, none, some, List, [], ◌∷◌, ◌++◌, Text, ◌==◌,
  ltb, min, if◌then◌else◌,
}
use commerce_core_api.Common.Int.{ℤ}
use commerce_core_api.Common.Error.{Tx, gets, modify, throw_if, internal, pure, ◌>>=◌, ◌>>◌}
use commerce_core_api.Common.Table.{find, find_by, update, matches, select}
use commerce_core_api.Database.{Database}
use commerce_core_api.Database.Product.{ProductStatus, OptionSnapshot, ProductRow, VariantRow}
use commerce_core_api.Database.Checkout.{CartRow, CartItemRow}
use commerce_core_api.Product.{variant_key}
use commerce_core_api.Checkout.Repo.{cart_key, product_key}

-- `MAX_CART_ITEM_QTY`
abbrev pub max_cart_item_qty : ℕ
max_cart_item_qty = 99

unfoldable pub find_cart_by_id : ℕ → Tx Database (Option CartRow)
find_cart_by_id cart_id = gets λ db. find cart_key cart_id db.carts

abbrev pub is_cart_of : ℕ → CartRow → Bool
is_cart_of user_id c = elim c.user_id [ none ↦ false | some u ↦ u == user_id ]

unfoldable pub find_cart_by_user_id : ℕ → Tx Database (Option CartRow)
find_cart_by_user_id user_id = gets λ db. find_by (is_cart_of user_id) db.carts

abbrev has_cart : Option ℕ → List CartRow → Bool
has_cart none carts = false
has_cart (some user_id) carts = matches (is_cart_of user_id) carts

-- A signed-in user has a row in users, which nothing deletes, so the foreign key of the cart holds.
unfoldable pub create_cart : Option ℕ → Tx Database CartRow
create_cart user_id = do
  taken ← gets λ db. has_cart user_id db.carts
  throw_if taken internal
  id ← gets λ db. db.next_cart_id
  let row : CartRow = record { id = id; user_id = user_id }
  modify λ db. record db { carts = db.carts ++ (row ∷ []); next_cart_id = suc id }
  pure row

-- `CartItemRow` of cart.types.ts: a cart item joined with its variant and product
pub record CartItem : Type 0 where
  pub variant_id : ℕ
  pub product_id : ℕ
  pub name : Text
  pub slug : Text
  pub price : ℤ
  pub stock : ℕ
  pub quantity : ℕ
  pub option_snapshot : Option (List OptionSnapshot)
  pub product_status : ProductStatus
  pub variant_status : ProductStatus

abbrev pub cart_item : CartItemRow → VariantRow → ProductRow → CartItem
cart_item ci v p = record {
  variant_id = ci.variant_id;
  product_id = p.id;
  name = p.name;
  slug = p.slug;
  price = v.price;
  stock = v.stock;
  quantity = ci.quantity;
  option_snapshot = v.option_snapshot;
  product_status = p.status;
  variant_status = v.status;
}

abbrev pub join_item : Database → CartItemRow → List CartItem
join_item db ci = elim (find variant_key ci.variant_id db.variants) [
  | none ↦ []
  | some v ↦ elim (find product_key v.product_id db.products) [
    | none ↦ []
    | some p ↦ cart_item ci v p ∷ []
  ]
]

abbrev pub join_items : Database → List CartItemRow → List CartItem
join_items db [] = []
join_items db (ci ∷ t) = join_item db ci ++ join_items db t

unfoldable pub find_cart_items : ℕ → Tx Database (List CartItem)
find_cart_items cart_id =
    gets λ db. join_items db (select (λ ci. ci.cart_id == cart_id) db.cart_items)

unfoldable pub find_variant_for_cart : ℕ → Tx Database (Option VariantRow)
find_variant_for_cart variant_id = gets λ db. find variant_key variant_id db.variants

abbrev pub is_item : ℕ → ℕ → CartItemRow → Bool
is_item cart_id variant_id ci = ci.cart_id == cart_id && ci.variant_id == variant_id

-- `LEAST(quantity + EXCLUDED.quantity, max)` where the quantity is below the maximum
abbrev pub add_quantity : ℕ → CartItemRow → CartItemRow
add_quantity quantity ci =
    if ltb ci.quantity max_cart_item_qty
    then record ci { quantity = min (ci.quantity + quantity) max_cart_item_qty }
    else ci

abbrev pub new_item : ℕ → ℕ → ℕ → CartItemRow
new_item cart_id variant_id quantity = record {
  cart_id = cart_id;
  variant_id = variant_id;
  quantity = quantity;
}

-- A quantity of 0 violates the CHECK of the table.
unfoldable pub upsert_cart_item : ℕ → ℕ → ℕ → Tx Database (Unit {0})
upsert_cart_item cart_id variant_id quantity = do
  throw_if (quantity == 0) internal
  modify λ db. record db {
    cart_items =
        if matches (is_item cart_id variant_id) db.cart_items
        then update (is_item cart_id variant_id) (add_quantity quantity) db.cart_items
        else db.cart_items ++ (new_item cart_id variant_id quantity ∷ []);
  }

unfoldable pub delete_cart_item : ℕ → ℕ → Tx Database (Unit {0})
delete_cart_item cart_id variant_id = modify λ db. record db {
  cart_items = select (λ ci. not (is_item cart_id variant_id ci)) db.cart_items;
}

abbrev pub set_quantity : ℕ → CartItemRow → CartItemRow
set_quantity quantity ci = record ci { quantity = quantity }

-- Whether a row was updated; nothing is answered for the quantity 0.
unfoldable pub update_cart_item_quantity : ℕ → ℕ → ℕ → Tx Database Bool
unfolding delete_cart_item
update_cart_item_quantity cart_id variant_id zero = do
  delete_cart_item cart_id variant_id
  pure false
update_cart_item_quantity cart_id variant_id (suc n) = do
  updated ← gets λ db. matches (is_item cart_id variant_id) db.cart_items
  modify λ db. record db {
    cart_items = update (is_item cart_id variant_id) (set_quantity (suc n)) db.cart_items;
  }
  pure updated

-- The items go with their cart: ON DELETE CASCADE.
unfoldable pub delete_cart : ℕ → Tx Database (Unit {0})
delete_cart cart_id = modify λ db. record db {
  carts = select (λ c. not (c.id == cart_id)) db.carts;
  cart_items = select (λ ci. not (ci.cart_id == cart_id)) db.cart_items;
}
