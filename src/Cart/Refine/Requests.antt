-- ===== src/Cart/Refine/Requests.antt =====
-- A series of requests to src/modules/cart/cart.service.ts, of several users and in any order.
use commerce_core_api.Common.{ℕ, ◌≡◌, refl, subst, List, [], ◌∷◌, All}
use commerce_core_api.Common.Error.{Result}
use commerce_core_api.Common.Steps.{answer, after}
use commerce_core_api.Database.{Database}
use commerce_core_api.Database.Product.{VariantRow}
use commerce_core_api.Cart.Held.{held, IsCartDb}
use commerce_core_api.Cart.Refine.{
  Basket, Request, add, change, drop, handle, IsValid, spec, Refines,
}
use commerce_core_api.Cart.Refine.Handlers.{
  delete_item-Refines, add_item-Refines, update_item-Refines,
}

-- The answers, and the tables afterwards.
abbrev pub run : List Request → Database → List (Result (Unit {0})) × Database
run [] db = ([], db)
run (r ∷ t) db =
    let one = handle r db in let rest = run t (after one) in (answer one ∷ rest.0, rest.1)

abbrev pub run_spec : List VariantRow → List Request → Basket → List (Result (Unit {0})) × Basket
run_spec variants [] b = ([], b)
run_spec variants (r ∷ t) b =
    let one = spec variants r b in let rest = run_spec variants t one.1 in (one.0 ∷ rest.0, rest.1)

handle-Refines :
    (db : Database) (r : Request)
    → IsValid r
    → IsCartDb db
    → Refines db (handle r db) (spec db.variants r (held db))
handle-Refines db (add u v q) (low, high) h = add_item-Refines db u v q low high h
handle-Refines db (change u v q) high h = update_item-Refines db u v q high h
handle-Refines db (drop u v) valid h = delete_item-Refines db u v h

same_basket : (a b : Basket) → ((u v : ℕ) → a u v ≡ b u v) → a ≡ b
same_basket a b h i u v = h u v i

abbrev pub AgreesWith :
    List (Result (Unit {0})) × Database → List (Result (Unit {0})) × Basket → Type 0
AgreesWith r s = (r.0 ≡ s.0) × (held r.1 ≡ s.1) × IsCartDb r.1

cons_both :
    {a b : Result (Unit {0})} {s t : List (Result (Unit {0}))} → a ≡ b → s ≡ t → a ∷ s ≡ b ∷ t
cons_both e f = cc

-- From well-formed tables, any series of requests that the schemas let through gives the answers of the
-- map from users and variants to quantities, and leaves the quantities of the map and well-formed tables.
pub requests_refine :
    (rs : List Request) (db : Database)
    → All IsValid rs
    → IsCartDb db
    → AgreesWith (run rs db) (run_spec db.variants rs (held db))
requests_refine [] db valid h = (refl, refl, h)
requests_refine (r ∷ t) db (valid, rest) h =
    let (well, variants, one, quantities) = handle-Refines db r valid h in
    let next = requests_refine t (after (handle r db)) rest well in
    let moved : held (after (handle r db)) ≡ (spec db.variants r (held db)).1 =
      same_basket (held (after (handle r db))) ((spec db.variants r (held db)).1) quantities in
    let later : AgreesWith (run t (after (handle r db)))
        (run_spec db.variants t ((spec db.variants r (held db)).1)) =
      subst (λ b. AgreesWith (run t (after (handle r db))) (run_spec db.variants t b)) moved
        (subst
          (λ vs.
            AgreesWith (run t (after (handle r db))) (run_spec vs t (held (after (handle r db)))))
          variants next) in
    (cons_both one later.0, later.1, later.2)
