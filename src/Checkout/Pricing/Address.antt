-- ===== src/Checkout/Pricing/Address.antt =====
-- `setCheckoutAddress` and the totals of sessions.
use commerce_core_api.Common.{ℕ, ◌≡◌, refl, ◌&&◌, some, Option-cases, inl, inr, ◌==◌}
use commerce_core_api.Common.Error.{Commits, Commits-bind}
use commerce_core_api.Common.Table.{find_by}
use commerce_core_api.Database.{Database}
use commerce_core_api.Database.Checkout.{SessionRow, AddressRow}
use commerce_core_api.Checkout.Repo.{
  clear_shipping, has_session_id, set_address, clear_shipping_selection,
  update_checkout_session_address, get_checkout_session, get_user_address, update_sessions,
}
use commerce_core_api.Checkout.Session.{set_checkout_address}
use commerce_core_api.Checkout.Guards.{assert_session_active}
use commerce_core_api.Checkout.Pricing.{
  IsPriced, IsUnpricedIn, update-IsPriced, found_session, find-updated, assert_session_active_frame,
}

-- The two writes of `setCheckoutAddress`.
addressed :
    (user_id session_id : ℕ) (a : AddressRow) (db : Database) (s : SessionRow)
    → IsPriced db
    → find_by (λ (x : SessionRow). x.id == session_id && x.user_id == user_id) db.sessions ≡ some s
    → let d =
        update_sessions
          (has_session_id session_id)
          clear_shipping
          (update_sessions (has_session_id session_id) (set_address a) db) in
      IsPriced d × IsUnpricedIn session_id d
addressed user_id session_id a db s c e =
    let set = update_sessions (has_session_id session_id) (set_address a) db in
    let set_is = update-IsPriced session_id (set_address a) db (λ _. refl) (λ s h. h) c in
    let row =
      find-updated session_id (set_address a) db s (λ _. refl)
        (found_session user_id session_id db s c e) in
    (
      update-IsPriced session_id clear_shipping set (λ _. refl) (λ s h. (refl, refl)) set_is,
      rw (find-updated session_id clear_shipping set (set_address a s) (λ _. refl) row)
          (refl, refl, refl),
    )

-- If in every session the subtotal, the shipping cost and the total are all absent or are those of its
-- items, and session ids are distinct, this stays so when a choice of an address commits; and the session
-- then has none of the three.
pub set_checkout_address-IsPriced :
    (user_id session_id address_id now : ℕ) (db : Database)
    → IsPriced db
    → Commits
        (λ d. IsPriced d × IsUnpricedIn session_id d)
        (set_checkout_address user_id session_id address_id now db)
unfolding set_checkout_address get_checkout_session get_user_address update_checkout_session_address
    clear_shipping_selection
set_checkout_address-IsPriced user_id session_id address_id now db c =
    elim (Option-cases
      (find_by (λ (s : SessionRow). s.id == session_id && s.user_id == user_id) db.sessions)) [
        | inl e ↦ rw e tt
        | inr (s, e) ↦ rw e (
            Commits-bind (λ d. d ≡ db) (λ d. IsPriced d × IsUnpricedIn session_id d)
              (assert_session_active now s) _ db (assert_session_active_frame now s db)
              (λ u d active same.
                rw same
                  (elim (Option-cases (
                    find_by (λ (a : AddressRow). a.id == address_id && a.user_id == user_id)
                      db.addresses)) [
                        | inl f ↦ rw f tt
                        | inr (a, f) ↦ rw f (addressed user_id session_id a db s c e)
                      ])))
      ]
