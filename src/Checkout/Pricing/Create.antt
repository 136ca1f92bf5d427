-- ===== src/Checkout/Pricing/Create.antt =====
-- `createCheckoutSession` and the totals of sessions.
use commerce_core_api.Common.{
  ℕ, suc, ◌+◌, ◌≡◌, refl, not, ◌&&◌, none, ◌++◌, map, Option-cases, Bool-cases, inl, inr, ◌==◌,
  length,
}
use commerce_core_api.Common.Error.{Commits}
use commerce_core_api.Common.Table.{find, find_by, select, find-update}
use commerce_core_api.Database.{Database}
use commerce_core_api.Database.Checkout.{SessionRow, AddressRow}
use commerce_core_api.Checkout.Repo.{
  session_key, has_session_id, is_item_of_session, session_item, clear_shipping, set_address,
  new_session, is_stale, set_revoked, update_sessions, is_unused, join_cart_items, owns_cart,
  cart_key, get_cart_items, get_active_session, get_default_address, revoke_expired_sessions,
  replace_session_items, update_checkout_session_address, clear_shipping_selection,
  insert_checkout_session, insert_checkout_session_items,
}
use commerce_core_api.Checkout.Session.{create_checkout_session, thirty_minutes}
use commerce_core_api.Checkout.Pricing.{IsPriced, IsUnpriced}
use commerce_core_api.Checkout.Pricing.Opening.{
  select-replace, select-insert, same_totals-IsPriced, cleared-IsPriced, opened-IsPriced,
}

module _ (user_id now : ℕ) (db : Database) (c : IsPriced db)
    (fresh : find session_key db.next_session_id db.sessions ≡ none) where
  abbrev revoked : Database
  revoked = update_sessions (is_stale user_id now) (set_revoked now) db

  revoked_is : IsPriced revoked
  revoked_is =
      same_totals-IsPriced db c (is_stale user_id now) (set_revoked now) (λ _. refl) (λ s k h. h)

  still_fresh : find session_key db.next_session_id revoked.sessions ≡ none
  still_fresh =
      rw
        (
          find-update session_key db.next_session_id (is_stale user_id now) (set_revoked now)
              db.sessions (λ _. refl),
          fresh,
        )
        refl

  -- If in every session the subtotal, the shipping cost and the total are all absent or are those of its
  -- items, session ids are distinct, and no session has the next id, then opening a session, or taking the
  -- cart into the one that is open, keeps this so of the totals and ids when it commits.
  pub create_checkout_session-IsPriced : Commits IsPriced (create_checkout_session user_id now db)
  unfolding create_checkout_session revoke_expired_sessions get_cart_items get_active_session
      get_default_address replace_session_items update_checkout_session_address
      clear_shipping_selection insert_checkout_session insert_checkout_session_items
  create_checkout_session-IsPriced =
      let lines =
        join_cart_items revoked
          (select (λ ci. owns_cart user_id (find cart_key ci.cart_id db.carts)) db.cart_items) in
      let replaced = λ (id : ℕ).
        select (λ i. not (is_item_of_session id i)) db.session_items
        ++ map (session_item id) lines in
      let default =
        find_by (λ (a : AddressRow). a.user_id == user_id && a.is_default) db.addresses in
      let opened =
        λ (new : SessionRow) (at : new.id ≡ db.next_session_id) (none_left : IsUnpriced new).
          opened-IsPriced revoked revoked_is new
            (db.session_items ++ map (session_item db.next_session_id) lines) (rw at still_fresh)
            none_left
            (λ k away. select-insert k db.next_session_id db.session_items lines (rw at at away))
            (suc db.next_session_id) in
      elim (Bool-cases (length lines == 0)) [
        | inl e ↦ rw e tt
        | inr e ↦
            rw e
              (elim (Option-cases (
                find_by (λ (s : SessionRow). s.user_id == user_id && is_unused s)
                  revoked.sessions)) [
                    | inl f ↦ elim (Option-cases default) [
                      | inl g ↦
                          rw (f, g)
                            (opened (new_session db.next_session_id user_id (now + thirty_minutes))
                              refl (refl, refl, refl))
                      | inr (a, g) ↦
                          rw (f, g)
                            (opened
                              (set_address a
                                (new_session db.next_session_id user_id (now + thirty_minutes)))
                              refl (refl, refl, refl))
                    ]
                    | inr (s, f) ↦ elim (Option-cases default) [
                      | inl g ↦
                          rw (f, g)
                            (cleared-IsPriced revoked revoked_is s.id clear_shipping (replaced s.id)
                              (λ _. refl) (λ _. (refl, refl, refl))
                              (λ k away. select-replace k s.id db.session_items lines away))
                      | inr (a, g) ↦
                          let addressed =
                            update_sessions (has_session_id s.id) (set_address a) revoked in
                          let addressed_is =
                            same_totals-IsPriced revoked revoked_is (has_session_id s.id)
                              (set_address a) (λ _. refl) (λ s k h. h) in
                          rw (f, g)
                            (cleared-IsPriced addressed addressed_is s.id clear_shipping
                              (replaced s.id) (λ _. refl) (λ _. (refl, refl, refl))
                              (λ k away. select-replace k s.id db.session_items lines away))
                    ]
                  ])
      ]
