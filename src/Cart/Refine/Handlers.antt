-- ===== src/Cart/Refine/Handlers.antt =====
-- The handlers of src/modules/cart/cart.service.ts, each beside its specification.
use commerce_core_api.Common.{
  ℕ, suc, zero, ◌+◌, ◌≤◌, ◌≡◌, ◌∙◌, refl, true, false, not, ◌&&◌, some, List, ◌==◌, ltb, min,
  if◌then◌else◌, arith, Bool-cases, Option-cases, inl, inr, ==→eq,
}
use commerce_core_api.Common.Error.{Result, ok, err, not_found, bad_request}
use commerce_core_api.Common.Steps.{Steps, statement, fail_if, or_fail, ◌>>=◌, ◌>>◌}
use commerce_core_api.Common.Table.{find_by, matches, find}
use commerce_core_api.Database.{Database}
use commerce_core_api.Database.Product.{is_active}
use commerce_core_api.Database.Checkout.{CartRow, CartItemRow}
use commerce_core_api.Product.{variant_key}
use commerce_core_api.Cart.{resolve_user_cart, add_item, update_item, delete_item, clamp_quantity}
use commerce_core_api.Cart.Repo.{
  is_cart_of, is_item, max_cart_item_qty, find_variant_for_cart, upsert_cart_item,
  update_cart_item_quantity, delete_cart_item,
}
use commerce_core_api.Cart.Quantities.{
  quantity_in, quantity_in-positive, matches-find_by, upserted, removed, replaced,
  quantity_in-upserted, quantity_in-removed, quantity_in-replaced,
}
use commerce_core_api.Cart.Items.{select-IsItemTable, replaced-IsItemTable, upserted-IsItemTable}
use commerce_core_api.Cart.Held.{
  held, IsCartDb, IsResolved, find_by-below, other_cart, resolve_user_cart-IsResolved,
}
use commerce_core_api.Cart.Refine.{Basket, put, add_spec, change_spec, Refines}

ok-injective : {A : Type 0} (a b : A) → ok a ≡ ok b → a ≡ b
ok-injective a b e = cc

-- A handler that resolves the cart first.
module _ (user_id : ℕ) (db : Database) (f : ℕ → Steps Database (Unit {0}))
    (s : Result (Unit {0}) × Basket)
    (next : (c : CartRow) (d : Database)
      → find_by (is_cart_of user_id) d.carts ≡ some c
      → IsCartDb d
      → d.variants ≡ db.variants
      → ((a w : ℕ) → held d a w ≡ held db a w)
      → Refines db (f c.id d) s) where
  resolved :
      (r : Result ℕ × Database)
      → IsResolved user_id db r
      → Refines db (((λ (x : Database). r) >>= f) db) s
  resolved (ok id, d) (c, e, found, well, same, quantities) =
      rw (ok-injective id c.id e) (next c d found well same quantities)
  resolved (err m, d) (c, e, found, well, same, quantities) = cc

  after_resolve : IsCartDb db → Refines db ((resolve_user_cart user_id >>= f) db) s
  after_resolve h =
      resolved (resolve_user_cart user_id db) (resolve_user_cart-IsResolved user_id db h)

-- A statement that sets the quantity of one variant in the cart of a user.
held-edit :
    (db : Database) (user_id variant_id quantity : ℕ) (c : CartRow) (items : List CartItemRow)
    → IsCartDb db
    → find_by (is_cart_of user_id) db.carts ≡ some c
    → ((k w : ℕ)
        → quantity_in k w items
          ≡ (if k == c.id && w == variant_id then quantity else quantity_in k w db.cart_items))
    → (a w : ℕ)
    → held (record db { cart_items = items }) a w ≡ put user_id variant_id quantity (held db) a w
held-edit db user_id variant_id quantity c items h e edit a w =
    elim (Option-cases (find_by (is_cart_of a) db.carts)) [
      | inl f ↦
          let g : (a == user_id) ≡ false = elim (Bool-cases (a == user_id)) [
            | inl q ↦ ground (arith, ==→eq a user_id)
            | inr q ↦ q
          ] in
          ground arith
      | inr (d, f) ↦ ground (arith, edit d.id w, other_cart db user_id a c d h e f)
    ]

pub delete_item-Refines :
    (db : Database) (u v : ℕ)
    → IsCartDb db
    → Refines db (delete_item u v db) (ok tt, put u v 0 (held db))
unfolding delete_item delete_cart_item
delete_item-Refines db u v h =
    after_resolve u db (λ id. statement (delete_cart_item id v)) (ok tt, put u v 0 (held db))
      (λ c d found well same quantities. (
        (
          well.0,
          well.1,
          select-IsItemTable d.next_cart_id (λ ci. not (is_item c.id v ci)) d.cart_items well.2,
        ),
        same,
        refl,
        λ a w.
            held-edit d u v 0 c (removed c.id v d.cart_items) well found
              (λ i j. quantity_in-removed c.id v i j d.cart_items) a w
            ∙ ground (arith, quantities a w),
      ))
      h

-- The statement of `addItem`, in the cart of a user.
upsert-Refines :
    (db d : Database) (u v q : ℕ) (c : CartRow)
    → 1 ≤ q
    → q ≤ max_cart_item_qty
    → find_by (is_cart_of u) d.carts ≡ some c
    → IsCartDb d
    → d.variants ≡ db.variants
    → ((a w : ℕ) → held d a w ≡ held db a w)
    → Refines db
        (statement (upsert_cart_item c.id v q) d)
        (ok tt, put u v (min (held db u v + q) max_cart_item_qty) (held db))
unfolding upsert_cart_item
upsert-Refines db d u v q c low high found well same quantities =
    let there : held d u v ≡ quantity_in c.id v d.cart_items = rw (found, held) refl in
    let edit : (k w : ℕ)
        → quantity_in k w (upserted c.id v q d.cart_items) ≡ (
            if k == c.id && w == v
            then min (held db u v + q) max_cart_item_qty
            else quantity_in k w d.cart_items) =
      λ k w. ground (
        arith,
        quantity_in-upserted c.id v d.next_cart_id q k w d.cart_items well.2 low high,
        there,
        quantities u v,
        ==→eq k c.id,
        ==→eq w v,
      ) in
    let all : (a w : ℕ)
        → held (record d { cart_items = upserted c.id v q d.cart_items }) a w
          ≡ put u v (min (held db u v + q) max_cart_item_qty) (held db) a w =
      λ a w.
        held-edit d u v (min (held db u v + q) max_cart_item_qty) c (upserted c.id v q d.cart_items)
          well found edit a w
        ∙ ground (arith, quantities a w) in
    let nonzero : (q == 0) ≡ false = ground arith in
    rw nonzero (
      (
        well.0,
        well.1,
        upserted-IsItemTable d.next_cart_id c.id v q low high d.cart_items
            (find_by-below d.next_cart_id (is_cart_of u) d.carts well.1 found) well.2,
      ),
      same,
      refl,
      all,
    )

pub add_item-Refines :
    (db : Database) (u v q : ℕ)
    → 1 ≤ q
    → q ≤ max_cart_item_qty
    → IsCartDb db
    → Refines db (add_item u v q db) (add_spec (find variant_key v db.variants) u v q (held db))
unfolding add_item find_variant_for_cart
add_item-Refines db u v q low high h =
    let clamped : clamp_quantity q ≡ q = omega (arith, high) in
    after_resolve u db
      (λ id. statement (find_variant_for_cart v) >>= λ found.
        or_fail found (not_found "Variant not found") >>= λ variant.
        fail_if (not (is_active variant.status)) (bad_request "Variant is not available")
        >> statement (upsert_cart_item id v (clamp_quantity q)))
      (add_spec (find variant_key v db.variants) u v q (held db))
      (λ c d found well same quantities.
        let seen : find variant_key v d.variants ≡ find variant_key v db.variants = rw same refl in
        rw (clamped, seen)
          (elim (Option-cases (find variant_key v db.variants)) [
            | inl e ↦ rw e (well, same, refl, quantities)
            | inr (x, e) ↦ elim (Bool-cases (is_active x.status)) [
              | inl f ↦ rw (e, f) (upsert-Refines db d u v q c low high found well same quantities)
              | inr f ↦ rw (e, f) (well, same, refl, quantities)
            ]
          ]))
      h

-- The statement of `updateItem` for a quantity that is not 0, and the guard after it.
change-Refines :
    (db d : Database) (u v n : ℕ) (c : CartRow)
    → suc n ≤ max_cart_item_qty
    → find_by (is_cart_of u) d.carts ≡ some c
    → IsCartDb d
    → d.variants ≡ db.variants
    → ((a w : ℕ) → held d a w ≡ held db a w)
    → Refines db
        ((statement (update_cart_item_quantity c.id v (suc n)) >>= λ updated.
            fail_if (not updated && ltb 0 (suc n)) (not_found "Cart item not found"))
          d)
        (change_spec u v (suc n) (held db))
unfolding update_cart_item_quantity
change-Refines db d u v n c high found well same quantities =
    let there : held d u v ≡ quantity_in c.id v d.cart_items = rw (found, held) refl in
    let next : IsCartDb (record d { cart_items = replaced c.id v (suc n) d.cart_items }) = (
      well.0,
      well.1,
      replaced-IsItemTable d.next_cart_id c.id v (suc n) (omega arith) high d.cart_items well.2,
    ) in
    let positive : ltb 0 (suc n) ≡ true = ground arith in
    elim (Bool-cases (matches (is_item c.id v) d.cart_items)) [
      | inl m ↦
          let held_some : (held db u v == 0) ≡ false = ground (
            arith,
            there,
            quantities u v,
            quantity_in-positive d.next_cart_id c.id v d.cart_items well.2 m,
          ) in
          rw (m, held_some)
            (
              next,
              same,
              refl,
              λ a w.
                  held-edit d u v (suc n) c (replaced c.id v (suc n) d.cart_items) well found
                    (λ k i. ground (arith, quantity_in-replaced c.id v (suc n) k i d.cart_items, m))
                    a w
                  ∙ ground (arith, quantities a w),
            )
      | inr m ↦
          let absent : quantity_in c.id v d.cart_items ≡ 0 =
            ground (arith, m, matches-find_by (is_item c.id v) d.cart_items) in
          let held_none : (held db u v == 0) ≡ true =
            ground (arith, there, absent, quantities u v) in
          rw (m, held_none, positive)
            (
              next,
              same,
              refl,
              λ a w.
                  held-edit d u v 0 c (replaced c.id v (suc n) d.cart_items) well found
                    (λ k i. ground (
                      arith,
                      quantity_in-replaced c.id v (suc n) k i d.cart_items,
                      m,
                      absent,
                      ==→eq k c.id,
                      ==→eq i v,
                    ))
                    a w
                  ∙ ground
                      (arith, quantities a w, quantities u v, there, absent, ==→eq a u, ==→eq w v),
            )
    ]

pub update_item-Refines :
    (db : Database) (u v q : ℕ)
    → q ≤ max_cart_item_qty
    → IsCartDb db
    → Refines db (update_item u v q db) (change_spec u v q (held db))
unfolding update_item update_cart_item_quantity delete_cart_item delete_item
update_item-Refines db u v zero high h = delete_item-Refines db u v h
update_item-Refines db u v (suc n) high h =
    after_resolve u db
      (λ id. statement (update_cart_item_quantity id v (suc n)) >>= λ updated.
        fail_if (not updated && ltb 0 (suc n)) (not_found "Cart item not found"))
      (change_spec u v (suc n) (held db))
      (λ c d found well same quantities.
        change-Refines db d u v n c high found well same quantities)
      h
