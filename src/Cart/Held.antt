-- ===== src/Cart/Held.antt =====
-- What each user has in its cart: the table of carts under the statements that
-- src/modules/cart/cart.service.ts runs.
use commerce_core_api.Common.{
  ℕ, suc, ◌<◌, ◌≡◌, refl, Bool, none, some, List, [], ◌∷◌, ◌++◌, ◌==◌, arith, Bool-cases,
  Option-cases, is_some, inl, inr, ==_refl, ==→eq, All,
}
use commerce_core_api.Common.Error.{Result, ok}
use commerce_core_api.Common.Steps.{answer, after}
use commerce_core_api.Common.Table.{
  find_by, matches, find_by-append, find_by-holds, find-find_by, IsKeyed, append-IsKeyed, find,
}
use commerce_core_api.Database.{Database}
use commerce_core_api.Database.Checkout.{CartRow}
use commerce_core_api.Checkout.Repo.{cart_key}
use commerce_core_api.Cart.{resolve_user_cart}
use commerce_core_api.Cart.Repo.{is_cart_of, find_cart_by_user_id, create_cart}
use commerce_core_api.Cart.Quantities.{IsItemTable, quantity_in, quantity_in-new, widen-IsItemTable}

-- The quantity of a variant in a user's cart, 0 where there is none.
abbrev pub held : Database → ℕ → ℕ → ℕ
held db user_id variant_id = elim (find_by (is_cart_of user_id) db.carts) [
  | none ↦ 0
  | some c ↦ quantity_in c.id variant_id db.cart_items
]

-- The ids of the carts are distinct and have been given out; the items are well formed.
abbrev pub IsCartDb : Database → Type 0
IsCartDb db =
    IsKeyed cart_key db.carts
    × All (λ c. c.id < db.next_cart_id) db.carts
    × IsItemTable db.next_cart_id db.cart_items

abbrev pub IsResolved : ℕ → Database → Result ℕ × Database → Type 0
IsResolved user_id db r =
    (c : CartRow) × (answer r ≡ ok c.id)
    × (find_by (is_cart_of user_id) (after r).carts ≡ some c)
    × IsCartDb (after r)
    × ((after r).variants ≡ db.variants)
    × ((a w : ℕ) → held (after r) a w ≡ held db a w)

pub find_by-below :
    (next : ℕ) (p : CartRow → Bool) (t : List CartRow) {c : CartRow}
    → All (λ c. c.id < next) t
    → find_by p t ≡ some c
    → c.id < next
find_by-below next p [] h e = cc
find_by-below next p (x ∷ t) {c} h e = elim (Bool-cases (p x)) [
  | inl q ↦ let f : x ≡ c = ground arith in rw f at h.0
  | inr q ↦ find_by-below next p t {c = c} h.1 (ground arith)
]

find-unused : (next : ℕ) (t : List CartRow) → All (λ c. c.id < next) t → find cart_key next t ≡ none
find-unused next [] h = refl
find-unused next (x ∷ t) h = ground (arith, find-unused next t h.1, ==→eq x.id next)

append-below :
    (r : CartRow) (t : List CartRow)
    → All (λ c. c.id < r.id) t
    → All (λ c. c.id < suc r.id) (t ++ (r ∷ []))
append-below r [] h = (omega arith, tt)
append-below r (x ∷ t) h = (omega (arith, h.0), append-below r t h.1)

matches-cart : (p : CartRow → Bool) (t : List CartRow) → matches p t ≡ is_some (find_by p t)
matches-cart p [] = refl
matches-cart p (x ∷ t) = ground (arith, matches-cart p t)

-- The carts of two users have different ids.
pub other_cart :
    (db : Database) (user_id a : ℕ) (c d : CartRow)
    → IsCartDb db
    → find_by (is_cart_of user_id) db.carts ≡ some c
    → find_by (is_cart_of a) db.carts ≡ some d
    → (d.id == c.id) ≡ (a == user_id)
other_cart db user_id a c d h e f = grind (
  arith,
  find-find_by cart_key (is_cart_of user_id) db.carts h.0 e,
  find-find_by cart_key (is_cart_of a) db.carts h.0 f,
  find_by-holds (is_cart_of user_id) db.carts e,
  find_by-holds (is_cart_of a) db.carts f,
  ==→eq d.id c.id,
  ==→eq a user_id,
  ==_refl a,
  ==_refl c.id,
)

unfoldable with_cart : ℕ → Database → Database
with_cart user_id db = record db {
  carts = db.carts ++ (record { id = db.next_cart_id; user_id = some user_id } ∷ []);
  next_cart_id = suc db.next_cart_id;
}

held-with_cart :
    (user_id : ℕ) (db : Database)
    → IsCartDb db
    → find_by (is_cart_of user_id) db.carts ≡ none
    → (a w : ℕ) → held (with_cart user_id db) a w ≡ held db a w
unfolding with_cart
held-with_cart user_id db h e a w = elim (Option-cases (find_by (is_cart_of a) db.carts)) [
  | inl f ↦ ground (
    arith,
    find_by-append (is_cart_of a) (record { id = db.next_cart_id; user_id = some user_id })
        db.carts,
    quantity_in-new db.next_cart_id w db.cart_items h.2,
  )
  | inr (c, f) ↦ ground (
    arith,
    find_by-append (is_cart_of a) (record { id = db.next_cart_id; user_id = some user_id })
        db.carts,
  )
]

with_cart-IsCartDb : (user_id : ℕ) (db : Database) → IsCartDb db → IsCartDb (with_cart user_id db)
unfolding with_cart
with_cart-IsCartDb user_id db (keyed, below, items) =
    let row : CartRow = record { id = db.next_cart_id; user_id = some user_id } in
    (
      append-IsKeyed cart_key row db.carts (find-unused db.next_cart_id db.carts below) keyed,
      append-below row db.carts below,
      widen-IsItemTable db.next_cart_id db.cart_items items,
    )

resolve-found :
    (user_id : ℕ) (db : Database) (c : CartRow)
    → find_by (is_cart_of user_id) db.carts ≡ some c
    → resolve_user_cart user_id db ≡ (ok c.id, db)
unfolding resolve_user_cart find_cart_by_user_id
resolve-found user_id db c e = ground arith

resolve-new :
    (user_id : ℕ) (db : Database)
    → find_by (is_cart_of user_id) db.carts ≡ none
    → resolve_user_cart user_id db ≡ (ok db.next_cart_id, with_cart user_id db)
unfolding resolve_user_cart find_cart_by_user_id create_cart with_cart
resolve-new user_id db e = ground (arith, matches-cart (is_cart_of user_id) db.carts)

pub resolve_user_cart-IsResolved :
    (user_id : ℕ) (db : Database)
    → IsCartDb db
    → IsResolved user_id db (resolve_user_cart user_id db)
unfolding with_cart
resolve_user_cart-IsResolved user_id db h =
    elim (Option-cases (find_by (is_cart_of user_id) db.carts)) [
      | inr (c, e) ↦ rw (resolve-found user_id db c e) (c, refl, e, h, refl, λ a w. refl)
      | inl e ↦ rw (resolve-new user_id db e) (
        record { id = db.next_cart_id; user_id = some user_id },
        refl,
        ground (
          arith,
          find_by-append (is_cart_of user_id)
              (record { id = db.next_cart_id; user_id = some user_id }) db.carts,
          ==_refl user_id,
        ),
        with_cart-IsCartDb user_id db h,
        refl,
        held-with_cart user_id db h e,
      )
    ]
