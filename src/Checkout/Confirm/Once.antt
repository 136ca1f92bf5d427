-- ===== src/Checkout/Confirm/Once.antt =====
-- A second conversion of the same session.
use commerce_core_api.Common.{ℕ, ◌≡◌, refl, ◌&&◌, Option, none, List, [], ◌∷◌, Text, arith, ==→eq}
use commerce_core_api.Common.Error.{Commits, Commits-map, err, bad_request}
use commerce_core_api.Common.Table.{find_by, update, find_by-holds}
use commerce_core_api.Database.{Database}
use commerce_core_api.Database.Checkout.{SessionRow, UserRow, WarehouseRow}
use commerce_core_api.Images.{ImageRef}
use commerce_core_api.Checkout.Guards.{CheckoutItem, Totals}
use commerce_core_api.Checkout.Repo.{
  get_checkout_session_for_update, mark_session_converted, clear_cart_by_user_id, has_session_id,
  is_unused, set_converted,
}
use commerce_core_api.Checkout.Confirm.{
  create_order, insert_order_items, insert_shipment, place_order, confirm_checkout, wanted,
}
use commerce_core_api.Checkout.Confirm.Frames.{reduce_stock_frame, inserted}
use commerce_core_api.Checkout.Confirm.Rule.{confirm_checkout_rule, is_convertible}

-- The sessions after a conversion.
abbrev Marks : ℕ → ℕ → Database → Database → Type 0
Marks id now db db' =
    db'.sessions ≡ update (λ s. has_session_id id s && is_unused s) (set_converted now) db.sessions

place_order-Marks :
    (image : CheckoutItem → Option ImageRef) (user_id : ℕ) (s : SessionRow) (t : Totals)
    (items : List CheckoutItem) (user : UserRow) (warehouse : WarehouseRow) (code : Text) (now : ℕ)
    (db : Database)
    → Commits (Marks s.id now db) (place_order image user_id s t items user warehouse code now db)
unfolding place_order create_order insert_order_items insert_shipment mark_session_converted
    clear_cart_by_user_id
place_order-Marks image user_id s t items user warehouse code now db = ground (
  arith,
  reduce_stock_frame (wanted items) (inserted image user_id s t items user warehouse code now db),
)

none_left :
    (user_id id now : ℕ) (t : List SessionRow)
    → find_by
        (is_convertible user_id id)
        (update (λ s. has_session_id id s && is_unused s) (set_converted now) t)
      ≡ none
none_left user_id id now [] = refl
none_left user_id id now (s ∷ t) = ground (arith, none_left user_id id now t)

refused :
    (image : CheckoutItem → Option ImageRef) (user_id session_id : ℕ) (code : Text) (now : ℕ)
    (db : Database)
    → find_by (is_convertible user_id session_id) db.sessions ≡ none
    → confirm_checkout image user_id session_id code now db
      ≡ err (bad_request "Session already used or invalid")
unfolding confirm_checkout get_checkout_session_for_update
refused image user_id session_id code now db e = rw e refl

-- After a conversion of a session has committed, every other attempt on the same session by its user
-- is refused, whatever the time, the new order's code and the pictures.
pub confirm_checkout_once :
    (image : CheckoutItem → Option ImageRef) (user_id session_id : ℕ) (code : Text) (now : ℕ)
    (db : Database) (image' : CheckoutItem → Option ImageRef) (code' : Text) (later : ℕ)
    → Commits
        (λ db'.
          confirm_checkout image' user_id session_id code' later db'
          ≡ err (bad_request "Session already used or invalid"))
        (confirm_checkout image user_id session_id code now db)
confirm_checkout_once image user_id session_id code now db image' code' later =
    let Q = λ (db' : Database).
      confirm_checkout image' user_id session_id code' later db'
      ≡ err (bad_request "Session already used or invalid") in
    confirm_checkout_rule image user_id session_id code now db Q (λ s t items user warehouse h.
      let id : s.id ≡ session_id = ground (
        arith,
        find_by-holds (is_convertible user_id session_id) db.sessions h.session_found,
        ==→eq s.id session_id,
      ) in
      Commits-map (Marks s.id now db) Q _
        (λ db' marks.
          refused image' user_id session_id code' later db'
            (rw (marks, id) (none_left user_id session_id now db.sessions)))
        (place_order-Marks image user_id s t items user warehouse code now db))
