-- ===== src/Product/Stock.antt =====
-- The stock of a variant across `reduceStock` and `expireOrders`.
use commerce_core_api.Common.{
  ℕ, ◌+◌, ◌≡◌, refl, Bool, true, false, Option, none, some, List, [], ◌∷◌, map, arith, length,
  subst, includes, if◌then◌else◌, Bool-cases, inl, inr, ◌==◌, ==→eq, leb,
}
use commerce_core_api.Common.Error.{Commits, Commits-map, Commits-bind, pure, modify, ◌>>◌}
use commerce_core_api.Common.Table.{
  find, matches, IsKeyed, find-update, find-key, set_if, update-IsKeyed,
}
use commerce_core_api.Database.{Database}
use commerce_core_api.Database.Product.{VariantRow}
use commerce_core_api.Database.Order.{OrderRow, OrderItemRow}
use commerce_core_api.Product.{
  variant_key, has_stock, take_stock, reduce_variant_stock, reduce_stock,
}
use commerce_core_api.Order.Repo.{order_key, update_orders}
use commerce_core_api.Order.Worker.{
  is_item_of, total_qty, release_stock, set_order_expired, select_overdue, expire_orders,
}

-- The stock of a variant, 0 where there is none.
abbrev pub stock_in : Option VariantRow → ℕ
stock_in none = 0
stock_in (some v) = v.stock

abbrev pub stock_of : ℕ → Database → ℕ
stock_of k db = stock_in (find variant_key k db.variants)

-- How many pieces of a variant a list of items asks for.
abbrev pub demand : ℕ → List (ℕ × ℕ) → ℕ
demand k [] = 0
demand k ((variant_id, qty) ∷ items) = (if variant_id == k then qty else 0) + demand k items

-- A row that matches is the one under the key.
matches-find :
    (k qty : ℕ) (t : List VariantRow)
    → IsKeyed variant_key t
    → matches (has_stock k qty) t ≡ true
    → leb qty (stock_in (find variant_key k t)) ≡ true
matches-find k qty [] h e = cc
matches-find k qty (v ∷ t) h e = elim (Bool-cases (v.id == k)) [
  | inl c ↦ elim (Bool-cases (leb qty v.stock)) [
    | inl d ↦ rw c d
    | inr d ↦
        let none_left : find variant_key k t ≡ none = rw (==→eq v.id k c) at h.0 in
        let e' : matches (has_stock k qty) t ≡ true = ground arith in
        ground (arith, matches-find k qty t h.1 e')
  ]
  | inr c ↦ ground (arith, matches-find k qty t h.1)
]

one_round :
    (k variant_id qty : ℕ) (o : Option VariantRow)
    → ((v : VariantRow) → o ≡ some v → v.id ≡ k)
    → ((variant_id ≡ k) → leb qty (stock_in o) ≡ true)
    → stock_in (set_if (has_stock variant_id qty) (take_stock qty) o)
        + (if variant_id == k then qty else 0)
      ≡ stock_in o
one_round k variant_id qty none key enough = ground (arith, enough, ==→eq variant_id k)
one_round k variant_id qty (some v) key enough =
    ground (arith, enough, ==→eq variant_id k, key v refl)

-- Stock and keys after one round of the loop.
abbrev Taken : ℕ → ℕ → ℕ → Database → Database → Type 0
Taken k variant_id qty db db' =
    (stock_of k db' + (if variant_id == k then qty else 0) ≡ stock_of k db)
    × IsKeyed variant_key db'.variants

reduce_variant_stock_lem :
    (k variant_id qty : ℕ) (db : Database)
    → IsKeyed variant_key db.variants
    → Commits (Taken k variant_id qty db) (reduce_variant_stock variant_id qty db)
unfolding reduce_variant_stock
reduce_variant_stock_lem k variant_id qty db h =
    let keyed =
      update-IsKeyed variant_key (has_stock variant_id qty) (take_stock qty) db.variants (λ _. refl)
        h in
    let after =
      find-update variant_key k (has_stock variant_id qty) (take_stock qty) db.variants
        (λ _. refl) in
    elim (Bool-cases (matches (has_stock variant_id qty) db.variants)) [
      | inr e ↦ rw e tt
      | inl e ↦ rw e (
        rw after (
            one_round k variant_id qty (find variant_key k db.variants)
              (λ v f. find-key variant_key k db.variants f)
              (λ same.
                subst (λ j. leb qty (stock_in (find variant_key j db.variants)) ≡ true) same
                  (matches-find variant_id qty db.variants h e))),
        keyed,
      )
    ]

-- Where variant ids are distinct, a `reduceStock` that commits takes from every variant exactly the
-- pieces that its items ask for.
pub reduce_stock_lem :
    (k : ℕ) (items : List (ℕ × ℕ)) (db : Database)
    → IsKeyed variant_key db.variants
    → Commits (λ db'. stock_of k db' + demand k items ≡ stock_of k db) (reduce_stock items db)
unfolding reduce_stock
reduce_stock_lem k [] db h = omega arith
reduce_stock_lem k ((variant_id, qty) ∷ items) db h =
    Commits-bind (Taken k variant_id qty db) _ (reduce_variant_stock variant_id qty)
      (λ _. reduce_stock items) db (reduce_variant_stock_lem k variant_id qty db h)
      (λ u db' e taken.
        Commits-map (λ db''. stock_of k db'' + demand k items ≡ stock_of k db') _
          (reduce_stock items db') (λ db'' g. omega (arith, g, taken.0))
          (reduce_stock_lem k items db' taken.1))

unmatched :
    (ids : List ℕ) (k : ℕ) (t : List OrderItemRow)
    → matches (is_item_of ids k) t ≡ false
    → total_qty ids k t ≡ 0
unmatched ids k [] h = refl
unmatched ids k (i ∷ t) h = ground (arith, unmatched ids k t)

no_orders : (k : ℕ) (t : List OrderItemRow) → total_qty [] k t ≡ 0
no_orders k [] = refl
no_orders k (i ∷ t) = omega (arith, no_orders k t)

release_stock_lem :
    (ids : List ℕ) (k : ℕ) (v : VariantRow) (db : Database)
    → find variant_key k db.variants ≡ some v
    → Commits
        (λ db'. stock_of k db' ≡ stock_of k db + total_qty ids k db.order_items)
        (release_stock ids db)
unfolding release_stock
release_stock_lem ids k v db e = ground (
  arith,
  find-update variant_key k (λ v. matches (is_item_of ids v.id) db.order_items)
      (λ v. record v { stock = v.stock + total_qty ids v.id db.order_items }) db.variants
      (λ _. refl),
  find-key variant_key k db.variants e,
  unmatched ids k db.order_items,
)

expire_rows :
    (rows : List OrderRow) (now k : ℕ) (v : VariantRow) (db : Database)
    → find variant_key k db.variants ≡ some v
    → Commits
        (λ db'. stock_of k db' ≡ stock_of k db + total_qty (map order_key rows) k db.order_items)
        ((if length rows == 0
            then pure 0
            else (release_stock (map order_key rows)
                >> modify (
                    update_orders (λ o. includes o.id (map order_key rows)) (set_order_expired now))
                >> pure (length (map order_key rows))))
          db)
unfolding release_stock
expire_rows [] now k v db e = omega (arith, no_orders k db.order_items)
expire_rows (o ∷ rows) now k v db e =
    ground (arith, release_stock_lem (map order_key (o ∷ rows)) k v db e)

-- Expiring orders gives every variant that exists back exactly the pieces of the orders that it
-- expires.
pub expire_orders_stock :
    (now : ℕ) (locked : ℕ → Bool) (k : ℕ) (v : VariantRow) (db : Database)
    → find variant_key k db.variants ≡ some v
    → Commits
        (λ db'.
          stock_of k db'
          ≡ stock_of k db
            + total_qty (map order_key (select_overdue now locked db.orders)) k db.order_items)
        (expire_orders now locked db)
unfolding expire_orders
expire_orders_stock now locked k v db e =
    expire_rows (select_overdue now locked db.orders) now k v db e
