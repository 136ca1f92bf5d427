-- ===== src/Order/Lifecycle/Progress.antt =====
-- How an order may change: what the handlers and the background jobs never undo.
use commerce_core_api.Common.{
  ℕ, ◌≡◌, refl, ◌∙◌, Bool, true, false, ◌&&◌, Option, none, some, List, [], ◌∷◌, ◌++◌, map,
  includes, Text, arith, if◌then◌else◌, Option-cases, Bool-cases, inl, inr, ◌==◌, ==→eq,
}
use commerce_core_api.Common.Error.{Commits}
use commerce_core_api.Common.Table.{
  find, find_by, update, set_if, or_else, find-update, find-append, find-key, find-find_by,
}
use commerce_core_api.Database.{Database}
use commerce_core_api.Database.Order.{OrderRow, OrderStatus, OrderPaymentStatus, order_is}
use commerce_core_api.Order.Repo.{
  order_key, shipment_key, has_id, has_code, is_open, set_processing, set_completed, set_cancelled,
}
use commerce_core_api.Order.Admin.{mark_as_shipped, mark_as_delivered}
use commerce_core_api.Order.User.{cancel_order, confirm_delivered}
use commerce_core_api.Order.Worker.{
  select_overdue, set_order_expired, expire_orders, set_order_completed,
  auto_complete_delivered_orders, select_long_shipped,
}
use commerce_core_api.Order.Lifecycle.{IsConsistentDb}
use commerce_core_api.Order.Lifecycle.Worker.{select_overdue_lem}

-- PENDING is never entered again, and COMPLETED and CANCELLED are never left.
abbrev pub may_become : OrderStatus → OrderStatus → Bool
may_become OrderStatus.pending b = true
may_become OrderStatus.processing OrderStatus.pending = false
may_become OrderStatus.processing b = true
may_become OrderStatus.completed OrderStatus.completed = true
may_become OrderStatus.completed b = false
may_become OrderStatus.cancelled OrderStatus.cancelled = true
may_become OrderStatus.cancelled b = false

-- UNPAID is never entered again, and PAID is never left.
abbrev pub may_pay : OrderPaymentStatus → OrderPaymentStatus → Bool
may_pay OrderPaymentStatus.unpaid b = true
may_pay OrderPaymentStatus.paid OrderPaymentStatus.paid = true
may_pay OrderPaymentStatus.paid b = false
may_pay OrderPaymentStatus.failed OrderPaymentStatus.unpaid = false
may_pay OrderPaymentStatus.failed b = true
may_pay OrderPaymentStatus.expired OrderPaymentStatus.unpaid = false
may_pay OrderPaymentStatus.expired b = true

-- A later version of an order: the same owner, code and amounts.
abbrev pub Follows : OrderRow → OrderRow → Type 0
Follows a b =
    (may_become a.status b.status ≡ true)
    × (may_pay a.payment_status b.payment_status ≡ true)
    × (b.user_id ≡ a.user_id)
    × (b.order_code ≡ a.order_code)
    × (b.total ≡ a.total)

pub Follows-refl : (a : OrderRow) → Follows a a
Follows-refl a = ground arith

pub Follows-trans : (a b c : OrderRow) → Follows a b → Follows b c → Follows a c
Follows-trans a b c f g = (
  become a.status b.status c.status f.0 g.0,
  pay a.payment_status b.payment_status c.payment_status f.1 g.1,
  g.2 ∙ f.2,
  g.3 ∙ f.3,
  g.4 ∙ f.4,
)
  where
    become :
        (x y z : OrderStatus)
        → may_become x y ≡ true
        → may_become y z ≡ true
        → may_become x z ≡ true
    become x y z p q = ground arith

    pay :
        (x y z : OrderPaymentStatus) → may_pay x y ≡ true → may_pay y z ≡ true → may_pay x z ≡ true
    pay x y z p q = ground arith

-- The order that is under an id is there afterwards too, in a later version.
abbrev pub FollowsIn : Option OrderRow → Option OrderRow → Type 0
FollowsIn none b = Unit
FollowsIn (some o) none = ⊥
FollowsIn (some o) (some o') = Follows o o'

abbrev pub Keeps : ℕ → Database → Database → Type 0
Keeps k db db' = FollowsIn (find order_key k db.orders) (find order_key k db'.orders)

pub FollowsIn-refl : (o : Option OrderRow) → FollowsIn o o
FollowsIn-refl none = tt
FollowsIn-refl (some o) = Follows-refl o

pub FollowsIn-trans : (a b c : Option OrderRow) → FollowsIn a b → FollowsIn b c → FollowsIn a c
FollowsIn-trans none b c f g = tt
FollowsIn-trans (some a) none c f g = absurd f
FollowsIn-trans (some a) (some b) none f g = absurd g
FollowsIn-trans (some a) (some b) (some c) f g = Follows-trans a b c f g

set_if-FollowsIn :
    (p : OrderRow → Bool) (f : OrderRow → OrderRow) (a : Option OrderRow)
    → ((o : OrderRow) → a ≡ some o → p o ≡ true → Follows o (f o))
    → FollowsIn a (set_if p f a)
set_if-FollowsIn p f none keep = tt
set_if-FollowsIn p f (some o) keep = elim (Bool-cases (p o)) [
  | inl h ↦ rw h (keep o refl h)
  | inr h ↦ rw h (Follows-refl o)
]

-- An update of the orders that takes each row it meets to a later version.
pub update-FollowsIn :
    (k : ℕ) (p : OrderRow → Bool) (f : OrderRow → OrderRow) (orders : List OrderRow)
    → ((o : OrderRow) → order_key (f o) ≡ order_key o)
    → ((o : OrderRow) → find order_key k orders ≡ some o → p o ≡ true → Follows o (f o))
    → FollowsIn (find order_key k orders) (find order_key k (update p f orders))
update-FollowsIn k p f orders ff keep =
    rw (find-update order_key k p f orders ff) (set_if-FollowsIn p f (find order_key k orders) keep)

pub append-FollowsIn :
    (k : ℕ) (o : OrderRow) (orders : List OrderRow)
    → FollowsIn (find order_key k orders) (find order_key k (orders ++ (o ∷ [])))
append-FollowsIn k o orders =
    rw (find-append order_key k o orders) (first (find order_key k orders))
  where
    first :
        (a : Option OrderRow) → FollowsIn a (or_else a (if order_key o == k then some o else none))
    first none = tt
    first (some x) = Follows-refl x

module _ (k : ℕ) (db : Database) where
  pub mark_as_shipped-Keeps :
      (order_id : ℕ) (tn : Text) (now : ℕ)
      → Commits (Keeps k db) (mark_as_shipped order_id tn now db)
  unfolding mark_as_shipped
  mark_as_shipped-Keeps order_id tn now = ground (
    arith,
    FollowsIn-refl (find order_key k db.orders),
    update-FollowsIn k (λ o. has_id order_id o && order_is o.status OrderStatus.pending)
        set_processing db.orders (λ _. refl) (λ o e h. ground arith),
  )

  completed-FollowsIn :
      (id : ℕ)
      → FollowsIn
          (find order_key k db.orders)
          (find order_key k (update (λ o. has_id id o && is_open o) set_completed db.orders))
  completed-FollowsIn id =
      update-FollowsIn k (λ o. has_id id o && is_open o) set_completed db.orders (λ _. refl)
        (λ o e h. ground arith)

  pub mark_as_delivered-Keeps :
      (order_id now : ℕ) → Commits (Keeps k db) (mark_as_delivered order_id now db)
  unfolding mark_as_delivered
  mark_as_delivered-Keeps order_id now = ground (arith, completed-FollowsIn order_id)

  pub confirm_delivered-Keeps :
      (user_id : ℕ) (code : Text) (now : ℕ)
      → Commits (Keeps k db) (confirm_delivered user_id code now db)
  unfolding confirm_delivered
  confirm_delivered-Keeps user_id code now =
      elim (Option-cases (find_by (has_code code) db.orders)) [
        | inl e ↦ rw e tt
        | inr (o, e) ↦
            ground (arith, FollowsIn-refl (find order_key k db.orders), completed-FollowsIn o.id)
      ]

  cancelled-FollowsIn :
      (o : OrderRow) (now : ℕ)
      → IsConsistentDb db
      → find order_key o.id db.orders ≡ some o
      → may_become o.status OrderStatus.cancelled ≡ true
      → may_pay o.payment_status OrderPaymentStatus.failed ≡ true
      → FollowsIn
          (find order_key k db.orders)
          (find order_key k (update (has_id o.id) (set_cancelled now) db.orders))
  cancelled-FollowsIn o now c found become pay =
      update-FollowsIn k (has_id o.id) (set_cancelled now) db.orders (λ _. refl)
        (λ r e h. ground (arith, find-key order_key k db.orders e, ==→eq r.id o.id))

  pub cancel_order-Keeps :
      (user_id : ℕ) (code : Text) (now : ℕ)
      → IsConsistentDb db
      → Commits (Keeps k db) (cancel_order user_id code now db)
  unfolding cancel_order
  cancel_order-Keeps user_id code now c = elim (Option-cases (find_by (has_code code) db.orders)) [
    | inl e ↦ rw e tt
    | inr (o, e) ↦ ground (
      arith,
      FollowsIn-refl (find order_key k db.orders),
      cancelled-FollowsIn o now c
          (find-find_by order_key (has_code code) db.orders c.orders_keyed e),
    )
  ]

  pub expire_orders-Keeps :
      (now : ℕ) (locked : ℕ → Bool)
      → IsConsistentDb db
      → Commits (Keeps k db) (expire_orders now locked db)
  unfolding expire_orders
  expire_orders-Keeps now locked c =
      let ids = map order_key (select_overdue now locked db.orders) in
      ground (
        arith,
        FollowsIn-refl (find order_key k db.orders),
        update-FollowsIn k (λ o. includes o.id ids) (set_order_expired now) db.orders (λ _. refl)
            (λ o e h. ground (
              arith,
              find-key order_key k db.orders e,
              select_overdue_lem now locked db.orders o.id {o = o} c.orders_keyed h,
            )),
      )

  pub auto_complete_delivered_orders-Keeps :
      (now : ℕ) → Commits (Keeps k db) (auto_complete_delivered_orders now db)
  unfolding auto_complete_delivered_orders
  auto_complete_delivered_orders-Keeps now =
      let ids = map shipment_key (select_long_shipped now db) in
      ground (
        arith,
        FollowsIn-refl (find order_key k db.orders),
        update-FollowsIn k (λ o. includes o.id ids && is_open o) (set_order_completed now) db.orders
            (λ _. refl) (λ o e h. ground arith),
      )
