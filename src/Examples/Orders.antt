-- ===== src/Examples/Orders.antt =====
-- The handlers of orders and the background jobs on the small shop.
use commerce_core_api.Common.{
  ℕ, ◌+◌, ◌≡◌, ◌<◌, ◌⊎◌, some, length, arith, refl, Bool, true, false, Option, none, [], ◌∷◌, codes,
}
use commerce_core_api.Common.Error.{committed, Commits}
use commerce_core_api.Common.Sort.{sort_by}
use commerce_core_api.Database.Order.{OrderStatus, OrderPaymentStatus, OrderShipmentStatus}
use commerce_core_api.Images.{ImageRef}
use commerce_core_api.Checkout.Guards.{CheckoutItem}
use commerce_core_api.Order.Admin.{mark_as_shipped, mark_as_delivered}
use commerce_core_api.Order.Worker.{
  fourteen_days, expire_orders, select_overdue, auto_complete_delivered_orders,
}
use commerce_core_api.Order.Lifecycle.{IsConsistentDb}
use commerce_core_api.Order.Lifecycle.Expiry.{
  IsForfeit, forfeited, expire_orders_only, expire_orders_all,
}
use commerce_core_api.Order.Lifecycle.Completion.{IsForgotten, auto_complete_only}
use commerce_core_api.Order.Repo.{order_key}
use commerce_core_api.Common.Table.{find}
use commerce_core_api.Order.Lifecycle.Accepts.{
  succeeds, mark_as_shipped-succeeds, mark_as_delivered-succeeds,
}
use commerce_core_api.Product.{reduce_stock, reduce_variant_stock}
use commerce_core_api.Product.Stock.{stock_of, reduce_stock_lem, expire_orders_stock}
use commerce_core_api.System.{here, next, ship}
use commerce_core_api.Order.Lifecycle.Progress.{Keeps}
use commerce_core_api.System.Progress.{Reach-Keeps}
use commerce_core_api.System.Consistency.{Reach-IsConsistent}
use commerce_core_api.Examples.Data.{
  variant, order, unpaid_shop, paid_shop, shipped_shop, shop-IsConsistent, no_date,
}

paid_is : IsConsistentDb paid_shop
paid_is =
    shop-IsConsistent OrderStatus.pending OrderPaymentStatus.paid OrderShipmentStatus.pending refl

shipped_is : IsConsistentDb shipped_shop
shipped_is =
    shop-IsConsistent OrderStatus.processing OrderPaymentStatus.paid OrderShipmentStatus.shipped
      refl

abbrev late : ℕ
late = fourteen_days + 100

abbrev unlocked : ℕ → Bool
unlocked k = false

abbrev no_image : CheckoutItem → Option ImageRef
no_image i = none

-- The order of the shop, past its expiry.
unpaid-IsForfeit : IsForfeit 200 unlocked (order OrderStatus.pending OrderPaymentStatus.unpaid)
unpaid-IsForfeit = record { unpaid = refl; pending = refl; late = omega arith; free = refl }

few_picked : length (select_overdue 200 unlocked unpaid_shop.orders) < 500
unfolding select_overdue sort_by
few_picked = omega arith

expire_orders_only_example :
    Commits
      (λ db'.
        (find order_key 5 db'.orders ≡ some (order OrderStatus.pending OrderPaymentStatus.unpaid))
        ⊎ (IsForfeit 200 unlocked (order OrderStatus.pending OrderPaymentStatus.unpaid)
            × (find order_key 5 db'.orders
                ≡ some (forfeited 200 (order OrderStatus.pending OrderPaymentStatus.unpaid)))))
      (expire_orders 200 unlocked unpaid_shop)
expire_orders_only_example =
    expire_orders_only 200 unlocked unpaid_shop 5
      (order OrderStatus.pending OrderPaymentStatus.unpaid) (refl, tt) refl

expire_orders_all_example :
    Commits
      (λ db'.
        find order_key 5 db'.orders
        ≡ some (forfeited 200 (order OrderStatus.pending OrderPaymentStatus.unpaid)))
      (expire_orders 200 unlocked unpaid_shop)
expire_orders_all_example =
    expire_orders_all 200 unlocked unpaid_shop 5
      (order OrderStatus.pending OrderPaymentStatus.unpaid) few_picked refl unpaid-IsForfeit

auto_complete_only_example :
    Commits
      (λ db'.
        (find order_key 5 db'.orders ≡ some (order OrderStatus.processing OrderPaymentStatus.paid))
        ⊎ (IsForgotten late shipped_shop (order OrderStatus.processing OrderPaymentStatus.paid)
            × (find order_key 5 db'.orders
                ≡ some (record (order OrderStatus.processing OrderPaymentStatus.paid) {
                  status = OrderStatus.completed;
                  completed_at = some late;
                }))))
      (auto_complete_delivered_orders late shipped_shop)
auto_complete_only_example =
    auto_complete_only late shipped_shop shipped_is
      (order OrderStatus.processing OrderPaymentStatus.paid) refl

mark_as_shipped-succeeds_example : succeeds (mark_as_shipped 5 (codes "JNE1") 50 paid_shop) ≡ true
mark_as_shipped-succeeds_example = mark_as_shipped-succeeds 5 (codes "JNE1") 50 paid_shop paid_is

mark_as_delivered-succeeds_example : succeeds (mark_as_delivered 5 70 shipped_shop) ≡ true
mark_as_delivered-succeeds_example = mark_as_delivered-succeeds 5 70 shipped_shop shipped_is

reduce_stock_lem_example :
    stock_of 10 (committed (reduce_stock ((10, 2) ∷ (10, 4) ∷ [])) unpaid_shop) + 6 ≡ 7
unfolding reduce_stock reduce_variant_stock
reduce_stock_lem_example = reduce_stock_lem 10 ((10, 2) ∷ (10, 4) ∷ []) unpaid_shop (refl, tt)

expire_orders_stock_example : stock_of 10 (committed (expire_orders 200 unlocked) unpaid_shop) ≡ 10
unfolding expire_orders select_overdue sort_by
expire_orders_stock_example = expire_orders_stock 200 unlocked 10 variant unpaid_shop refl

Reach-IsConsistent_example :
    IsConsistentDb (committed (mark_as_shipped 5 (codes "JNE1") 50) paid_shop)
unfolding mark_as_shipped
Reach-IsConsistent_example =
    Reach-IsConsistent {image = no_image} {parse_date = no_date} {db = paid_shop}
      (next here (ship 5 (codes "JNE1") 50 refl)) paid_is

Reach-Keeps_example : Keeps 5 paid_shop (committed (mark_as_shipped 5 (codes "JNE1") 50) paid_shop)
unfolding mark_as_shipped
Reach-Keeps_example =
    Reach-Keeps 5 {image = no_image} {parse_date = no_date} {db = paid_shop}
      (next here (ship 5 (codes "JNE1") 50 refl)) paid_is
