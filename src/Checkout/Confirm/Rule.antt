-- ===== src/Checkout/Confirm/Rule.antt =====
-- One rule for everything that a committed `confirmCheckout` establishes: it is what `place_order`
-- establishes, on the session, the totals and the items that have passed the checks.
use commerce_core_api.Common.{
  ℕ, ◌≡◌, ◌∙◌, ap, refl, Bool, false, ◌&&◌, Option, some, List, Text, Option-cases, Bool-cases, inl,
  inr, ltb, length, ◌==◌,
}
use commerce_core_api.Common.Error.{
  Commits, Commits-bind, ok, ◌>>=◌, gets, or_throw, bad_request, not_found,
}
use commerce_core_api.Common.Table.{find, find_by, select}
use commerce_core_api.Database.{Database}
use commerce_core_api.Database.Checkout.{SessionRow, UserRow, WarehouseRow}
use commerce_core_api.Images.{ImageRef}
use commerce_core_api.Checkout.Guards.{
  CheckoutItem, Totals, assert_checkout_ready, assert_items_valid,
}
use commerce_core_api.Checkout.Repo.{
  get_checkout_session_for_update, get_checkout_session_items, is_unused, join_session_items,
  is_item_of_session,
}
use commerce_core_api.Checkout.Confirm.{
  place_order, confirm_checkout, user_key, first_row, configured,
}
use commerce_core_api.Checkout.Confirm.Frames.{
  assert_checkout_ready_frame, assert_items_valid_frame,
}

abbrev pub items_of : Database → ℕ → List CheckoutItem
items_of db session_id =
    join_session_items db (select (is_item_of_session session_id) db.session_items)

abbrev pub is_convertible : ℕ → ℕ → SessionRow → Bool
is_convertible user_id session_id s = s.id == session_id && s.user_id == user_id && is_unused s

module _ (image : CheckoutItem → Option ImageRef) (user_id session_id : ℕ) (code : Text) (now : ℕ)
    (db : Database) where
  -- What the checks have shown when the writes begin.
  pub record HasPassed (s : SessionRow) (t : Totals) (items : List CheckoutItem) : Type 0 where
    pub session_found : find_by (is_convertible user_id session_id) db.sessions ≡ some s
    pub not_expired : ltb s.expires_at now ≡ false
    pub ready : assert_checkout_ready s db ≡ ok (t, db)
    pub items_found : items ≡ items_of db session_id
    pub some_items : (length items == 0) ≡ false
    pub items_valid : assert_items_valid items db ≡ ok (tt, db)

  module _ {κ} (Q : Database → Type κ)
      (place : (s : SessionRow) (t : Totals) (items : List CheckoutItem) (user : UserRow)
          (warehouse : WarehouseRow)
        → HasPassed s t items
        → Commits Q (place_order image user_id s t items user warehouse code now db)) where
    with_warehouse :
        (s : SessionRow) (t : Totals) (items : List CheckoutItem) (user : UserRow)
        → HasPassed s t items
        → Commits Q (
            ◌>>=◌
              (or_throw
                (configured (first_row db.warehouses))
                (bad_request "Warehouse is not properly configured"))
              (λ w. place_order image user_id s t items user w code now)
              db)
    with_warehouse s t items user h = elim (Option-cases (configured (first_row db.warehouses))) [
      | inl e ↦ rw e tt
      | inr (w, e) ↦ rw e (place s t items user w h)
    ]

    with_user :
        (s : SessionRow) (t : Totals) (items : List CheckoutItem)
        → HasPassed s t items
        → Commits Q (
            ◌>>=◌
              (or_throw (find user_key user_id db.users) (not_found "User not found"))
              (λ user. gets (λ (d : Database). first_row d.warehouses) >>= λ w.
                or_throw (configured w) (bad_request "Warehouse is not properly configured")
                >>= λ w. place_order image user_id s t items user w code now)
              db)
    with_user s t items h = elim (Option-cases (find user_key user_id db.users)) [
      | inl e ↦ rw e tt
      | inr (u, e) ↦ rw e (with_warehouse s t items u h)
    ]

    -- What every run that commits satisfies.
    pub confirm_checkout_rule : Commits Q (confirm_checkout image user_id session_id code now db)
    unfolding confirm_checkout get_checkout_session_for_update get_checkout_session_items
    confirm_checkout_rule =
        elim (Option-cases (find_by (is_convertible user_id session_id) db.sessions)) [
          | inl e ↦ rw e tt
          | inr (s, e) ↦ elim (Bool-cases (ltb s.expires_at now)) [
            | inl late ↦ rw (e, late) tt
            | inr live ↦
                rw (e, live)
                  (Commits-bind (λ d. d ≡ db) Q (assert_checkout_ready s) _ db
                    (assert_checkout_ready_frame s db)
                    (λ t db1 ready same.
                      let ready' : assert_checkout_ready s db ≡ ok (t, db) =
                        ready ∙ ap (λ d. ok (t, d)) same in
                      rw same (elim (Bool-cases (length (items_of db session_id) == 0)) [
                        | inl no_items ↦ rw no_items tt
                        | inr more ↦ rw more (
                            Commits-bind (λ d. d ≡ db) Q
                              (assert_items_valid (items_of db session_id)) _ db
                              (assert_items_valid_frame (items_of db session_id) db)
                              (λ u db2 valid same2.
                                let valid' : assert_items_valid (items_of db session_id) db
                                    ≡ ok (tt, db) =
                                  valid ∙ ap (λ d. ok (tt, d)) same2 in
                                rw same2 (
                                  with_user s t (items_of db session_id) (record {
                                    session_found = e;
                                    not_expired = live;
                                    ready = ready';
                                    items_found = refl;
                                    some_items = more;
                                    items_valid = valid';
                                  }))))
                      ])))
          ]
        ]
