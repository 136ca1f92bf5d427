-- ===== src/Checkout/Pricing.antt =====
-- The totals that a session carries, against those of the items that it holds: `setShippingMethod`
-- computes them; Address is on `setCheckoutAddress`, which clears them, and Create on new sessions.
pub mod Opening
pub mod Create
pub mod Address
use commerce_core_api.Common.{
  ℕ, ◌≡◌, refl, ◌∙◌, sym, subst, ◌&&◌, none, some, List, Text, text_eq, arith, Option-cases, Bool,
  Option, Bool-cases, inl, inr, ==→eq, ==_refl, ◌==◌,
}
use commerce_core_api.Common.Error.{Commits, Commits-bind, Result-cases, Result}
use commerce_core_api.Common.Int.{ℤ, pos, ◌+ℤ◌}
use commerce_core_api.Common.Table.{
  find, find_by, select, set_if-some, update-IsKeyed, find-update, find-key, IsKeyed, find-find_by,
  find_by-holds, update,
}
use commerce_core_api.Database.{Database}
use commerce_core_api.Database.Checkout.{SessionRow, AddressRow}
use commerce_core_api.Checkout.Repo.{
  session_key, clear_shipping, has_session_id, set_address, set_shipping, is_item_of_session,
  clear_shipping_selection, update_checkout_session_address, get_checkout_session, get_user_address,
  get_checkout_session_items, get_checkout_items_weight, update_sessions,
}
use commerce_core_api.Checkout.Session.{
  subtotal_of, district_of, total_weight, chargeable_weight, set_shipping_method,
  set_checkout_address, ShippingCost,
}
use commerce_core_api.Checkout.Guards.{assert_session_active}
use commerce_core_api.Checkout.Confirm.Rule.{items_of}

-- The sum of price times quantity over the items of a session.
abbrev pub session_value : Database → ℕ → ℤ
session_value db session_id = subtotal_of (pos 0) (items_of db session_id)

-- The subtotal, the shipping cost and the total are all absent.
abbrev pub IsUnpriced : SessionRow → Type 0
IsUnpriced s = (s.subtotal ≡ none) × (s.shipping_cost ≡ none) × (s.total ≡ none)

-- The subtotal, the shipping cost and the total are all absent, or all there: the subtotal is `value`, and
-- the total is it and the shipping cost.
abbrev pub IsPricedAt : ℤ → SessionRow → Type 0
IsPricedAt value s = elim s.subtotal [
  | none ↦ (s.shipping_cost ≡ none) × (s.total ≡ none)
  | some x ↦ elim s.shipping_cost [
    | none ↦ ⊥
    | some c ↦ (x ≡ value) × (s.total ≡ some (value +ℤ c))
  ]
]

-- The session of an id is there and has no subtotal, shipping cost or total.
abbrev IsUnpricedRow : Option SessionRow → Type 0
IsUnpricedRow none = ⊥
IsUnpricedRow (some s) = IsUnpriced s

abbrev pub IsUnpricedIn : ℕ → Database → Type 0
IsUnpricedIn k db = IsUnpricedRow (find session_key k db.sessions)

-- The session of an id is there, its subtotal is the value of its items, and its total is that and a
-- shipping cost that is there.
abbrev IsTotalled : ℤ → SessionRow → Type 0
IsTotalled value s = elim s.shipping_cost [
  | none ↦ ⊥
  | some c ↦ (s.subtotal ≡ some value) × (s.total ≡ some (value +ℤ c))
]

abbrev IsTotalledRow : ℤ → Option SessionRow → Type 0
IsTotalledRow value none = ⊥
IsTotalledRow value (some s) = IsTotalled value s

abbrev pub IsTotalledIn : ℕ → Database → Type 0
IsTotalledIn k db = IsTotalledRow (session_value db k) (find session_key k db.sessions)

pub record IsPriced (db : Database) : Type 0 where
  pub sessions_keyed : IsKeyed session_key db.sessions
  pub priced :
      (k : ℕ) (s : SessionRow)
      → find session_key k db.sessions ≡ some s
      → IsPricedAt (session_value db k) s

pub update-IsPriced :
    (id : ℕ) (f : SessionRow → SessionRow) (db : Database)
    → ((s : SessionRow) → session_key (f s) ≡ session_key s)
    → ((s : SessionRow)
        → IsPricedAt (session_value db id) s
        → IsPricedAt (session_value db id) (f s))
    → IsPriced db
    → IsPriced (update_sessions (has_session_id id) f db)
update-IsPriced id f db ff keep c = record {
  sessions_keyed = update-IsKeyed session_key (has_session_id id) f db.sessions ff c.sessions_keyed;
  priced = λ k s e.
      let (s0, e0, r) =
        set_if-some (has_session_id id) f (find session_key k db.sessions) s
          (rw (find-update session_key k (has_session_id id) f db.sessions ff) at e) in
      elim (Bool-cases (s0.id == id)) [
        | inl h ↦
            let kk : k ≡ id = sym (find-key session_key k db.sessions e0) ∙ ==→eq s0.id id h in
            let before = subst (λ j. IsPricedAt (session_value db j) s0) kk (c.priced k s0 e0) in
            rw kk (rw (← r, h) (keep s0 before))
        | inr h ↦ rw (← r, h) (c.priced k s0 e0)
      ];
}

-- The session that a handler finds for its user is the one of that id.
pub found_session :
    (user_id session_id : ℕ) (db : Database) (s : SessionRow)
    → IsPriced db
    → find_by (λ (x : SessionRow). x.id == session_id && x.user_id == user_id) db.sessions ≡ some s
    → find session_key session_id db.sessions ≡ some s
found_session user_id session_id db s c e =
    let p : SessionRow → Bool = λ x. x.id == session_id && x.user_id == user_id in
    let at = find-find_by session_key p db.sessions c.sessions_keyed e in
    ground (arith, ==→eq s.id session_id, find_by-holds p db.sessions e)

pub find-updated :
    (id : ℕ) (f : SessionRow → SessionRow) (db : Database) (s : SessionRow)
    → ((x : SessionRow) → session_key (f x) ≡ session_key x)
    → find session_key id db.sessions ≡ some s
    → find session_key id (update (has_session_id id) f db.sessions) ≡ some (f s)
find-updated id f db s ff e = ground (
  arith,
  find-update session_key id (has_session_id id) f db.sessions ff,
  find-key session_key id db.sessions e,
  ==_refl id,
)

pub assert_session_active_frame :
    (now : ℕ) (s : SessionRow) (db : Database)
    → Commits (λ db'. db' ≡ db) (assert_session_active now s db)
unfolding assert_session_active
assert_session_active_frame now s db = ground arith

-- The write of `setShippingMethod`.
chosen :
    (user_id session_id : ℕ) (db : Database) (s : SessionRow)
    → IsPriced db
    → find_by (λ (x : SessionRow). x.id == session_id && x.user_id == user_id) db.sessions ≡ some s
    → (code name service description : Text) (cost : ℤ) (etd : Text)
    → let value = session_value db session_id in
      let d =
        update_sessions
          (has_session_id session_id)
          (set_shipping code name service description cost etd value (value +ℤ cost))
          db in
      IsPriced d × IsTotalledIn session_id d
chosen user_id session_id db s c e code name service description cost etd =
    let value = session_value db session_id in
    let f = set_shipping code name service description cost etd value (value +ℤ cost) in
    (
      update-IsPriced session_id f db (λ _. refl) (λ s _. (refl, refl)) c,
      rw (find-updated session_id f db s (λ _. refl) (found_session user_id session_id db s c e))
          (refl, refl),
    )

module _ (domestic_cost : ℕ → ℤ → Text → Result (List ShippingCost)) (user_id session_id : ℕ)
    (courier_code courier_service : Text) (now : ℕ) where
  -- If in every session the subtotal, the shipping cost and the total are all absent or are those of its
  -- items, and session ids are distinct, this stays so when a choice of a shipping method commits; and
  -- the chosen session then has all three, with the value of its items as its subtotal.
  pub set_shipping_method-IsPriced :
      (db : Database)
      → IsPriced db
      → Commits
          (λ d. IsPriced d × IsTotalledIn session_id d)
          (set_shipping_method domestic_cost user_id session_id courier_code courier_service now db)
  unfolding set_shipping_method get_checkout_session get_checkout_session_items
      get_checkout_items_weight
  set_shipping_method-IsPriced db c =
      elim (Option-cases
        (find_by (λ (s : SessionRow). s.id == session_id && s.user_id == user_id) db.sessions)) [
          | inl e ↦ rw e tt
          | inr (s, e_session) ↦ rw e_session (
              Commits-bind (λ d. d ≡ db) (λ d. IsPriced d × IsTotalledIn session_id d)
                (assert_session_active now s) _ db (assert_session_active_frame now s db)
                (λ u d active same. rw same (elim (Option-cases (district_of s)) [
                  | inl e ↦ rw e tt
                  | inr (district, e) ↦
                      rw e
                        (elim (Result-cases (
                          domestic_cost district
                            (chargeable_weight (
                              total_weight (pos 0)
                                (select (is_item_of_session session_id) db.session_items)))
                            courier_code)) [
                              | inr (x, e) ↦ rw e tt
                              | inl (services, e) ↦
                                  rw e
                                    (elim (Option-cases (
                                      find_by
                                        (λ (s : ShippingCost). text_eq s.service courier_service)
                                        services)) [
                                          | inl e ↦ rw e tt
                                          | inr (selected, f) ↦ rw f (
                                              chosen user_id session_id db s c e_session _ _ _ _ _
                                                _)
                                        ])
                            ])
                ])))
        ]
