-- ===== src/Payment/Token.antt =====
-- `createSnapToken` of src/modules/user/order/order.user.service.ts, with `getOrderForPaymentForUpdate`,
-- `getOrderItems` and `saveSnapToken` of order.user.repo.ts. The argument `create_snap_transaction` is the
-- answer of the payment provider's client, a token and a page, and `now` is `new Date()`.
use commerce_core_api.Common.{
  ℕ, Bool, not, ◌&&◌, ◌||◌, Option, none, some, List, Text, text_eq, is_blank, arith, if◌then◌else◌,
  Option-cases, inl, inr, ltb, ◌==◌,
}
use commerce_core_api.Common.Error.{
  Tx, Result, ok, err, gets, modify, throw_if, or_throw, bad_request, not_found, pure, ◌>>=◌, ◌>>◌,
  Commits,
}
use commerce_core_api.Common.Table.{find, find_by, select}
use commerce_core_api.Database.{Database}
use commerce_core_api.Database.Checkout.{UserRow}
use commerce_core_api.Database.Order.{
  OrderRow, OrderItemRow, OrderStatus, OrderPaymentStatus, order_is, payment_is,
}
use commerce_core_api.Order.Repo.{has_id, update_orders}
use commerce_core_api.Payment.Midtrans.{MidtransPayload, build_midtrans_payload}

abbrev pub is_users : ℕ → Text → OrderRow → Bool
is_users user_id code o = text_eq o.order_code code && o.user_id == user_id

-- `JOIN users u ON u.id = o.user_id`
abbrev pub join_user : Database → Option OrderRow → Option (OrderRow × UserRow)
join_user db none = none
join_user db (some o) = elim (find (λ (u : UserRow). u.id) o.user_id db.users) [
  | none ↦ none
  | some u ↦ some (o, u)
]

unfoldable pub get_order_for_payment_for_update :
    Text → ℕ → Tx Database (Option (OrderRow × UserRow))
get_order_for_payment_for_update code user_id =
    gets λ db. join_user db (find_by (is_users user_id code) db.orders)

unfoldable pub get_order_items : ℕ → Tx Database (List OrderItemRow)
get_order_items order_id = gets λ db. select (λ i. i.order_id == order_id) db.order_items

abbrev pub set_token : Text → Text → OrderRow → OrderRow
set_token token redirect_url o = record o {
  snap_token = some token;
  snap_redirect_url = some redirect_url;
}

unfoldable pub save_snap_token : ℕ → Text → Text → Tx Database (Unit {0})
save_snap_token order_id token redirect_url =
    modify (update_orders (has_id order_id) (set_token token redirect_url))

abbrev lift_answer : Result (Text × Text) → Tx Database (Text × Text)
lift_answer (ok a) db = ok (a, db)
lift_answer (err e) db = err e

module _ (create_snap_transaction : MidtransPayload → Result (Text × Text)) (string_of : ℕ → Text)
    (url : Text) where
  unfoldable pub create_snap_token : ℕ → Text → Text → ℕ → Tx Database (Option Text × Option Text)
  unfolding get_order_for_payment_for_update get_order_items save_snap_token
  create_snap_token user_id code start_time now = do
    found ← get_order_for_payment_for_update code user_id
    row ← or_throw found (not_found "Order not found")
    throw_if
        (order_is row.0.status OrderStatus.cancelled || order_is row.0.status OrderStatus.completed)
        (bad_request "Order is not payable")
    throw_if (payment_is row.0.payment_status OrderPaymentStatus.paid)
        (bad_request "Order already paid")
    throw_if (ltb row.0.expires_at now) (bad_request "Order expired")
    if not (is_blank row.0.snap_token)
        then pure (row.0.snap_token, row.0.snap_redirect_url)
        else (get_order_items row.0.id >>= λ items.
            lift_answer (
              create_snap_transaction (
                build_midtrans_payload string_of url start_time row.0 row.1.display_name items now))
            >>= λ answer.
                save_snap_token row.0.id answer.0 answer.1 >> pure (some answer.0, some answer.1))

  -- What holds after a run that commits: nothing was written, or the token of one order.
  module _ {κ} (Q : Database → Type κ) (db : Database) (same : Q db)
      (saved : (id : ℕ) (token page : Text)
        → Q (update_orders (has_id id) (set_token token page) db)) where
    answered :
        (id : ℕ) (a : Result (Text × Text))
        → Commits {A = Option Text × Option Text} Q (
            (lift_answer a >>= λ answer.
            save_snap_token id answer.0 answer.1 >> pure (some answer.0, some answer.1))
              db)
    unfolding save_snap_token
    answered id (err e) = tt
    answered id (ok (token, page)) = saved id token page

    pub create_snap_token_rule :
        (user_id : ℕ) (code start_time : Text) (now : ℕ)
        → Commits Q (create_snap_token user_id code start_time now db)
    unfolding create_snap_token get_order_for_payment_for_update get_order_items
    create_snap_token_rule user_id code start_time now =
        elim (Option-cases (join_user db (find_by (is_users user_id code) db.orders))) [
          | inl e ↦ rw e tt
          | inr (row, e) ↦ rw e (
              ground (
                arith,
                same,
                answered row.0.id (
                    create_snap_transaction (
                      build_midtrans_payload string_of url start_time row.0 row.1.display_name
                        (select (λ i. i.order_id == row.0.id) db.order_items) now)),
              ))
        ]
