-- ===== src/System/Progress.antt =====
-- The versions of an order along a run of the system.
use commerce_core_api.Common.{
  ℕ, ◌≡◌, refl, Option, some, Text, arith, Option-cases, inl, inr, ==→eq, subst,
}
use commerce_core_api.Common.Error.{Commits, Commits-map, Result, ok, err, ◌>>◌}
use commerce_core_api.Common.Table.{find, find_by, update, find-key, find-find_by}
use commerce_core_api.Database.{Database}
use commerce_core_api.Database.Order.{OrderRow}
use commerce_core_api.Images.{ImageRef}
use commerce_core_api.Order.Repo.{order_key, has_id, has_code, set_paid, set_expired, set_failed}
use commerce_core_api.Order.Lifecycle.{IsConsistentDb}
use commerce_core_api.Order.Lifecycle.Progress.{
  Follows, FollowsIn, Keeps, FollowsIn-refl, FollowsIn-trans, update-FollowsIn, append-FollowsIn,
  mark_as_shipped-Keeps, mark_as_delivered-Keeps, confirm_delivered-Keeps, cancel_order-Keeps,
  expire_orders-Keeps, auto_complete_delivered_orders-Keeps,
}
use commerce_core_api.Payment.Payload.{MidtransWebhookPayload}
use commerce_core_api.Payment.Token.{set_token, create_snap_token_rule}
use commerce_core_api.Payment.Repo.{has_transaction}
use commerce_core_api.Payment.Webhook.{record_payment, apply_event, handle_midtrans_webhook}
use commerce_core_api.Payment.Webhook.Effects.{record_payment_frame}
use commerce_core_api.Checkout.Guards.{CheckoutItem}
use commerce_core_api.Checkout.Confirm.{confirm_checkout}
use commerce_core_api.Checkout.Confirm.Frames.{HasPlaced, place_order-HasPlaced, placed_order}
use commerce_core_api.Checkout.Confirm.Rule.{confirm_checkout_rule}
use commerce_core_api.System.{
  Step, convert, ship, deliver, cancel, confirm, webhook, expire, complete, tokenize, elsewhere,
  Reach, here, next,
}
use commerce_core_api.System.Consistency.{Reach-IsConsistent}

module _ (k : ℕ) where
  event_row :
      (f : OrderRow → OrderRow) (o : OrderRow) (db : Database)
      → ((r : OrderRow) → order_key (f r) ≡ order_key r)
      → find order_key o.id db.orders ≡ some o
      → Follows o (f o)
      → FollowsIn (find order_key k db.orders) (find order_key k (update (has_id o.id) f db.orders))
  event_row f o db ff found later = update-FollowsIn k (has_id o.id) f db.orders ff (λ r e h.
      let same : o ≡ r = ground (arith, find-key order_key k db.orders e, ==→eq r.id o.id) in
      subst (λ x. Follows x (f x)) same later)

  apply_event-Keeps :
      (payload : MidtransWebhookPayload) (o : OrderRow) (now : ℕ) (db : Database)
      → find order_key o.id db.orders ≡ some o
      → Commits (Keeps k db) (apply_event payload o now db)
  unfolding apply_event
  apply_event-Keeps payload o now db found = ground (
    arith,
    FollowsIn-refl (find order_key k db.orders),
    event_row (set_paid now) o db (λ _. refl) found,
    event_row set_expired o db (λ _. refl) found,
    event_row set_failed o db (λ _. refl) found,
  )

  after_record :
      (payload : MidtransWebhookPayload) (o : OrderRow) (now : ℕ) (db : Database)
      (x : Result (Unit {0} × Database))
      → Commits (λ db'. db' ≡ record db { payments = db'.payments }) x
      → find order_key o.id db.orders ≡ some o
      → Commits (Keeps k db) (◌>>◌ {B = Unit {0}} (λ _. x) (apply_event payload o now) db)
  after_record payload o now db (err y) frame found = tt
  after_record payload o now db (ok (u, db')) frame found =
      Commits-map (Keeps k db') (Keeps k db) (apply_event payload o now db')
        (λ db'' h. rw frame at h) (apply_event-Keeps payload o now db' (rw frame found))

  handle_midtrans_webhook-Keeps :
      (parse_date : Text → Option ℕ) (payload : MidtransWebhookPayload) (now : ℕ) (db : Database)
      → IsConsistentDb db
      → Commits (Keeps k db) (handle_midtrans_webhook parse_date payload now db)
  unfolding handle_midtrans_webhook
  handle_midtrans_webhook-Keeps parse_date payload now db c =
      elim (Option-cases (find_by (has_code payload.order_id) db.orders)) [
        | inl e ↦ rw e tt
        | inr (o, e) ↦
            let p = find_by (has_transaction payload.transaction_id) db.payments in
            rw e (
              after_record payload o now db (record_payment parse_date payload o p db)
                (record_payment_frame parse_date payload o p db)
                (find-find_by order_key (has_code payload.order_id) db.orders c.orders_keyed e))
      ]

  confirm_checkout-Keeps :
      (image : CheckoutItem → Option ImageRef) (user_id session_id : ℕ) (code : Text) (now : ℕ)
      (db : Database)
      → Commits (Keeps k db) (confirm_checkout image user_id session_id code now db)
  confirm_checkout-Keeps image user_id session_id code now db =
      confirm_checkout_rule image user_id session_id code now db (Keeps k db)
        (λ s t items user warehouse h.
          Commits-map (HasPlaced image user_id s t items user warehouse code now db) (Keeps k db) _
            (λ db' p.
              rw p.0 (
                append-FollowsIn k (placed_order user_id s t user warehouse code now db) db.orders))
            (place_order-HasPlaced image user_id s t items user warehouse code now db))

  module _ {image : CheckoutItem → Option ImageRef} {parse_date : Text → Option ℕ} where
    Step-Keeps :
        {db db' : Database} → Step image parse_date db db' → IsConsistentDb db → Keeps k db db'
    Step-Keeps {db} (convert user_id session_id code now receipt e) c =
        rw e at (confirm_checkout-Keeps image user_id session_id code now db)
    Step-Keeps {db} (ship order_id tracking_number now e) c =
        rw e at (mark_as_shipped-Keeps k db order_id tracking_number now)
    Step-Keeps {db} (deliver order_id now e) c = rw e at (mark_as_delivered-Keeps k db order_id now)
    Step-Keeps {db} (cancel user_id code now e) c =
        rw e at (cancel_order-Keeps k db user_id code now c)
    Step-Keeps {db} (confirm user_id code now e) c =
        rw e at (confirm_delivered-Keeps k db user_id code now)
    Step-Keeps {db} (webhook payload now e) c =
        rw e at (handle_midtrans_webhook-Keeps parse_date payload now db c)
    Step-Keeps {db} (expire now locked affected e) c =
        rw e at (expire_orders-Keeps k db now locked c)
    Step-Keeps {db} (complete now affected e) c =
        rw e at (auto_complete_delivered_orders-Keeps k db now)
    Step-Keeps {db} (tokenize create string_of url user_id code start_time now answer e) c =
        rw e at (
          create_snap_token_rule create string_of url (Keeps k db) db
            (FollowsIn-refl (find order_key k db.orders))
            (λ id token page.
              update-FollowsIn k (has_id id) (set_token token page) db.orders (λ _. refl)
                (λ o f h. ground arith))
            user_id code start_time now)
    Step-Keeps {db} (elsewhere o s n) c = rw o (FollowsIn-refl (find order_key k db.orders))

    -- From a consistent database on, an order that is there stays there, with its owner, code and total;
    -- it never goes back to PENDING or to UNPAID, and COMPLETED, CANCELLED and PAID are never left.
    pub Reach-Keeps :
        {db db' : Database} → Reach image parse_date db db' → IsConsistentDb db → Keeps k db db'
    Reach-Keeps {db} here c = FollowsIn-refl (find order_key k db.orders)
    Reach-Keeps {db} {db'} (next {d} r s) c =
        FollowsIn-trans (find order_key k db.orders) (find order_key k d.orders)
          (find order_key k db'.orders) (Reach-Keeps r c) (Step-Keeps s (Reach-IsConsistent r c))
