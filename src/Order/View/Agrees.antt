-- ===== src/Order/View/Agrees.antt =====
-- What a user is shown of an order, beside the handlers of
-- src/modules/user/order/order.user.service.ts that act on it.
use commerce_core_api.Common.{
  is_blank, inl, inr, refl, ℕ, ◌+◌, ◌≡◌, ◌≢◌, Bool, true, false, not, ◌&&◌, ◌||◌, Option, some,
  List, [], ◌∷◌, Text, arith, if◌then◌else◌, ◌==◌, ==_refl,
}
use commerce_core_api.Common.Error.{Result, Result-cases, is_committed}
use commerce_core_api.Common.Table.{find, find_by, select}
use commerce_core_api.Database.{Database}
use commerce_core_api.Database.Checkout.{UserRow}
use commerce_core_api.Database.Order.{OrderRow, OrderItemRow, ShipmentRow}
use commerce_core_api.Order.Repo.{
  shipment_key, has_code, get_order_by_code_for_update, get_shipment_for_update,
  update_shipment_to_delivered, update_order_to_completed,
}
use commerce_core_api.Order.Guards.{assert_order_not_final}
use commerce_core_api.Order.User.{confirm_delivered}
use commerce_core_api.Order.Lifecycle.{is_legal_pair}
use commerce_core_api.Payment.Midtrans.{MidtransPayload, build_midtrans_payload}
use commerce_core_api.Payment.Token.{
  is_users, create_snap_token, get_order_for_payment_for_update, get_order_items, save_snap_token,
}
use commerce_core_api.Order.View.Listing.{order_by_user, map_orders_by_user}
use commerce_core_api.Order.View.{
  map_order, ShownStatus, unknown, map_order_status, TimelineStep, build_order_timeline,
  can_confirm_order, can_pay,
}

abbrev pub shown : OrderRow → ShipmentRow → ShownStatus
shown o s = map_order_status o.status o.payment_status (some s.status)

abbrev pub current_steps : List TimelineStep → ℕ
current_steps [] = 0
current_steps (x ∷ t) = (if x.is_current then 1 else 0) + current_steps t

abbrev pub is_delivered : ShownStatus → Bool
is_delivered ShownStatus.delivered = true
is_delivered s = false

-- No step is completed after one that is not.
abbrev pub is_prefix : List TimelineStep → Bool
is_prefix [] = true
is_prefix (x ∷ []) = true
is_prefix (x ∷ y ∷ t) = (x.is_completed || not y.is_completed) && is_prefix (y ∷ t)

-- For an order and its shipment in a legal state, the status shown is never UNKNOWN; the timeline has one
-- current step, and none once the parcel is delivered; and no step of it is completed after one that is not.
pub timeline_lem :
    (o : OrderRow) (s : ShipmentRow) (created_at : ℕ) (updated_at : Option ℕ)
    → is_legal_pair o s ≡ true
    → (shown o s ≢ unknown)
      × (current_steps (build_order_timeline o s created_at updated_at)
          ≡ (if is_delivered (shown o s) then 0 else 1))
      × (is_prefix (build_order_timeline o s created_at updated_at) ≡ true)
unfolding map_order_status build_order_timeline
timeline_lem o s created_at updated_at h = (λ e. ground arith, ground arith, ground arith)

-- Of an order of the user and its shipment, in a legal state, the page offers to confirm the delivery
-- exactly when `confirmDelivered` succeeds, and the row of the order in the list offers it, and shows the
-- order's status, as the page does.
pub can_confirm_agrees :
    (db : Database) (o : OrderRow) (s : ShipmentRow) (items : List OrderItemRow) (created_at : ℕ)
    (updated_at : Option ℕ) (now : ℕ)
    → find_by (has_code o.order_code) db.orders ≡ some o
    → find shipment_key o.id db.shipments ≡ some s
    → is_legal_pair o s ≡ true
    → let page = map_order o s created_at updated_at items now in
      let listed = map_orders_by_user (order_by_user db o s created_at) in
      (page.can_confirm ≡ is_committed (confirm_delivered o.user_id o.order_code now db))
      × (listed.can_confirm ≡ page.can_confirm)
      × (listed.status ≡ page.status)
unfolding can_confirm_order map_order map_orders_by_user order_by_user confirm_delivered
    get_order_by_code_for_update get_shipment_for_update update_shipment_to_delivered
    update_order_to_completed assert_order_not_final
can_confirm_agrees db o s items created_at updated_at now e f h =
    (ground (arith, ==_refl o.user_id), ground arith, refl)

module _ (create_snap_transaction : MidtransPayload → Result (Text × Text)) (string_of : ℕ → Text)
    (url : Text) where
  -- Where the page offers to pay an order of the user, `createSnapToken` succeeds exactly when the order
  -- has a token already or the payment provider accepts the one request that is made for it.
  pub can_pay_agrees :
      (db : Database) (o : OrderRow) (u : UserRow) (now : ℕ) (start_time : Text)
      → find_by (is_users o.user_id o.order_code) db.orders ≡ some o
      → find (λ (x : UserRow). x.id) o.user_id db.users ≡ some u
      → can_pay o now ≡ true
      → is_committed (
          create_snap_token create_snap_transaction string_of url o.user_id o.order_code start_time
            now db)
        ≡ (not (is_blank o.snap_token)
            || is_committed (
                create_snap_transaction (
                  build_midtrans_payload string_of url start_time o u.display_name
                    (select (λ i. i.order_id == o.id) db.order_items)
                    now)))
  unfolding can_pay create_snap_token get_order_for_payment_for_update get_order_items
      save_snap_token
  can_pay_agrees db o u now start_time e f h =
      elim (Result-cases (
        create_snap_transaction (
          build_midtrans_payload string_of url start_time o u.display_name
            (select (λ i. i.order_id == o.id) db.order_items) now))) [
              | inl (a, g) ↦ ground arith
              | inr (x, g) ↦ ground arith
            ]
