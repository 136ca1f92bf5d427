-- ===== src/Checkout/Session.antt =====
-- `createCheckoutSession`, `setCheckoutAddress`, `calculateShippingCost` and `setShippingMethod` of
-- src/modules/user/checkout/checkout.user.service.ts. The argument `now` is `Date.now()` and `NOW()`,
-- and `domestic_cost` is what the shipping service answers. The reads that the source makes before it
-- opens its transaction are one step with it here.
use commerce_core_api.Common.{
  ℕ, ◌+◌, ◌*◌, Option, none, some, List, [], ◌∷◌, Text, text_eq, length, ◌==◌, if◌then◌else◌,
}
use commerce_core_api.Common.Int.{ℤ, pos, ◌+ℤ◌, ◌*ℤ◌, ltb_ℤ}
use commerce_core_api.Common.Table.{find_by}
use commerce_core_api.Common.Error.{
  Tx, Result, ok, err, modify, throw_if, or_throw, bad_request, not_found, pure, ◌>>=◌, ◌>>◌,
}
use commerce_core_api.Database.{Database}
use commerce_core_api.Database.Checkout.{SessionRow, SessionItemRow, AddressRow}
use commerce_core_api.Checkout.Guards.{CheckoutItem, assert_session_active}
use commerce_core_api.Checkout.Repo.{
  get_cart_items, get_checkout_session, get_checkout_session_items, get_checkout_items_weight,
  clear_shipping_selection, get_default_address, get_user_address, update_checkout_session_address,
  set_shipping, update_sessions, has_session_id, replace_session_items, insert_checkout_session,
  insert_checkout_session_items, get_active_session, revoke_expired_sessions,
}

abbrev pub thirty_minutes : ℕ
thirty_minutes = 30 * 60 * 1000

abbrev set_snapshot : ℕ → Option AddressRow → Tx Database (Unit {0})
set_snapshot session_id none = pure tt
set_snapshot session_id (some address) = update_checkout_session_address session_id address

-- Returns the id of the session.
unfoldable pub create_checkout_session : ℕ → ℕ → Tx Database ℕ
create_checkout_session user_id now = do
  revoke_expired_sessions user_id now
  items ← get_cart_items user_id
  throw_if (length items == 0) (bad_request "Cart is empty")
  existing ← get_active_session user_id
  default_address ← get_default_address user_id
  elim existing [
    | some session ↦
        (replace_session_items session.id items
          >> set_snapshot session.id default_address
          >> clear_shipping_selection session.id
          >> pure session.id)
    | none ↦
        (insert_checkout_session user_id (now + thirty_minutes) default_address >>= λ session_id.
        insert_checkout_session_items session_id items >> pure session_id)
  ]

unfoldable pub set_checkout_address : ℕ → ℕ → ℕ → ℕ → Tx Database (Unit {0})
set_checkout_address user_id session_id address_id now = do
  found ← get_checkout_session session_id user_id
  session ← or_throw found (not_found "Checkout session not found")
  assert_session_active now session
  found_address ← get_user_address user_id address_id
  address ← or_throw found_address (bad_request "Invalid address")
  update_checkout_session_address session_id address
  clear_shipping_selection session_id

pub record ShippingCost : Type 0 where
  pub name : Text
  pub code : Text
  pub service : Text
  pub description : Text
  pub cost : ℤ
  pub etd : Text

-- `reduce((acc, item) => acc + item.weight * item.quantity, 0)`
unfoldable pub total_weight : ℤ → List SessionItemRow → ℤ
total_weight acc [] = acc
total_weight acc (i ∷ t) = total_weight (acc +ℤ i.weight *ℤ pos i.quantity) t

-- `reduce((acc, item) => acc + item.price * item.quantity, 0)`
unfoldable pub subtotal_of : ℤ → List CheckoutItem → ℤ
subtotal_of acc [] = acc
subtotal_of acc (i ∷ t) = subtotal_of (acc +ℤ i.price *ℤ pos i.quantity) t

-- `Math.max(totalWeight, 1000)`
abbrev pub chargeable_weight : ℤ → ℤ
chargeable_weight w = if ltb_ℤ w (pos 1000) then pos 1000 else w

-- `!address || !address.shipping_district_id`: a missing id and 0 are refused.
abbrev pub district_of : SessionRow → Option ℕ
district_of s = elim s.shipping_district_id [
  | none ↦ none
  | some d ↦ if d == 0 then none else some d
]

abbrev lift_result : {A : Type 0} → Result A → Tx Database A
lift_result (ok a) db = ok (a, db)
lift_result (err e) db = err e

module _ (domestic_cost : ℕ → ℤ → Text → Result (List ShippingCost)) where
  unfoldable pub calculate_shipping_cost : ℕ → ℕ → Text → ℕ → Tx Database (List ShippingCost)
  calculate_shipping_cost user_id session_id courier now = do
    found ← get_checkout_session session_id user_id
    session ← or_throw found (not_found "Checkout session not found")
    assert_session_active now session
    district ←
        or_throw (district_of session)
          (bad_request "Please select a valid address before calculating shipping")
    items ← get_checkout_items_weight session_id
    lift_result (domestic_cost district (chargeable_weight (total_weight (pos 0) items)) courier)

  unfoldable pub set_shipping_method : ℕ → ℕ → Text → Text → ℕ → Tx Database (Unit {0})
  set_shipping_method user_id session_id courier_code courier_service now = do
    found ← get_checkout_session session_id user_id
    session ← or_throw found (not_found "Checkout session not found")
    assert_session_active now session
    district ←
        or_throw (district_of session)
          (bad_request "Please select a valid address before choosing shipping")
    items ← get_checkout_items_weight session_id
    services ←
        lift_result
          (domestic_cost district (chargeable_weight (total_weight (pos 0) items)) courier_code)
    selected ←
        or_throw (find_by (λ (s : ShippingCost). text_eq s.service courier_service) services)
          (bad_request "Invalid shipping service")
    full_items ← get_checkout_session_items session_id
    let subtotal = subtotal_of (pos 0) full_items
    modify (
        update_sessions (has_session_id session_id) (
          set_shipping courier_code selected.name courier_service selected.description selected.cost
            selected.etd subtotal (subtotal +ℤ selected.cost)))
