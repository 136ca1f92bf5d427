-- ===== src/Examples/Checkouts.antt =====
-- Checkout and conversion on the small shop.
use commerce_core_api.Common.{true, ℕ, ◌≡◌, refl, Option, none, List, [], ◌∷◌, Text, codes}
use commerce_core_api.Common.Int.{ℤ, pos, ◌+ℤ◌}
use commerce_core_api.Common.Error.{Commits, Result, ok, err, bad_request}
use commerce_core_api.Common.Table.{find}
use commerce_core_api.Database.Order.{OrderStatus, OrderPaymentStatus, OrderShipmentStatus}
use commerce_core_api.Images.{ImageRef}
use commerce_core_api.Order.Repo.{order_key}
use commerce_core_api.Order.Lifecycle.{IsConsistentDb}
use commerce_core_api.Order.Lifecycle.Accepts.{succeeds}
use commerce_core_api.Checkout.Guards.{
  CheckoutItem, assert_checkout_ready, assert_items_valid, assert_session_active,
}
use commerce_core_api.Checkout.Repo.{
  revoke_expired_sessions, get_cart_items, get_active_session, get_default_address,
  replace_session_items, get_checkout_session, get_checkout_session_for_update,
  get_checkout_session_items, get_checkout_items_weight, get_user_address,
  update_checkout_session_address, clear_shipping_selection, mark_session_converted,
  clear_cart_by_user_id,
}
use commerce_core_api.Product.{reduce_stock, reduce_variant_stock}
use commerce_core_api.Checkout.Session.{
  ShippingCost, set_shipping_method, create_checkout_session, set_checkout_address,
}
use commerce_core_api.Checkout.Pricing.{
  IsPriced, IsTotalledIn, IsUnpricedIn, set_shipping_method-IsPriced,
}
use commerce_core_api.Checkout.Pricing.Address.{set_checkout_address-IsPriced}
use commerce_core_api.Checkout.Pricing.Create.{create_checkout_session-IsPriced}
use commerce_core_api.Checkout.Confirm.{
  confirm_checkout, place_order, create_order, insert_order_items, insert_shipment,
}
use commerce_core_api.Checkout.Confirm.Amounts.{
  IsBalancedOrder, IsPriced-HasSubtotals, confirm_checkout-IsBalancedOrder,
}
use commerce_core_api.Checkout.Confirm.Once.{confirm_checkout_once}
use commerce_core_api.Examples.Data.{unpaid_shop, shop-IsConsistent, unpaid_shop-IsPriced}

unpaid_is : IsConsistentDb unpaid_shop
unpaid_is =
    shop-IsConsistent OrderStatus.pending OrderPaymentStatus.unpaid OrderShipmentStatus.pending refl

abbrev no_image : CheckoutItem → Option ImageRef
no_image i = none

-- A carrier with one service.
abbrev one_service : ℕ → ℤ → Text → Result (List ShippingCost)
one_service district weight courier = ok (
    record {
      name = codes "JNE";
      code = courier;
      service = codes "REG";
      description = codes "Regular";
      cost = pos 9000;
      etd = codes "2 day";
    }
    ∷ [])

confirm_checkout-IsBalancedOrder_example :
    Commits
      (λ db'. IsBalancedOrder db' (find order_key 6 db'.orders))
      (confirm_checkout no_image 1 3 (codes "ORD-6") 50 unpaid_shop)
confirm_checkout-IsBalancedOrder_example =
    confirm_checkout-IsBalancedOrder no_image 1 3 (codes "ORD-6") 50 unpaid_shop unpaid_is
      (IsPriced-HasSubtotals unpaid_shop unpaid_shop-IsPriced) refl

confirm_checkout_once_example :
    Commits
      (λ db'.
        confirm_checkout no_image 1 3 (codes "ORD-7") 60 db'
        ≡ err (bad_request "Session already used or invalid"))
      (confirm_checkout no_image 1 3 (codes "ORD-6") 50 unpaid_shop)
confirm_checkout_once_example =
    confirm_checkout_once no_image 1 3 (codes "ORD-6") 50 unpaid_shop no_image (codes "ORD-7") 60

set_shipping_method-IsPriced_example :
    Commits
      (λ d. IsPriced d × IsTotalledIn 3 d)
      (set_shipping_method one_service 1 3 (codes "jne") (codes "REG") 50 unpaid_shop)
set_shipping_method-IsPriced_example =
    set_shipping_method-IsPriced one_service 1 3 (codes "jne") (codes "REG") 50 unpaid_shop
      unpaid_shop-IsPriced

set_checkout_address-IsPriced_example :
    Commits (λ d. IsPriced d × IsUnpricedIn 3 d) (set_checkout_address 1 3 4 50 unpaid_shop)
set_checkout_address-IsPriced_example =
    set_checkout_address-IsPriced 1 3 4 50 unpaid_shop unpaid_shop-IsPriced

-- The runs above commit.
confirm_checkout_commits :
    succeeds (confirm_checkout no_image 1 3 (codes "ORD-6") 50 unpaid_shop) ≡ true
unfolding confirm_checkout get_checkout_session_for_update assert_checkout_ready ◌+ℤ◌
    get_checkout_session_items assert_items_valid place_order create_order insert_order_items
    insert_shipment reduce_stock reduce_variant_stock mark_session_converted clear_cart_by_user_id
confirm_checkout_commits = refl

set_shipping_method_commits :
    succeeds (set_shipping_method one_service 1 3 (codes "jne") (codes "REG") 50 unpaid_shop) ≡ true
unfolding set_shipping_method get_checkout_session assert_session_active get_checkout_items_weight
    get_checkout_session_items
set_shipping_method_commits = refl

set_checkout_address_commits : succeeds (set_checkout_address 1 3 4 50 unpaid_shop) ≡ true
unfolding set_checkout_address get_checkout_session assert_session_active get_user_address
    update_checkout_session_address clear_shipping_selection
set_checkout_address_commits = refl

create_checkout_session-IsPriced_example :
    Commits IsPriced (create_checkout_session 1 50 unpaid_shop)
create_checkout_session-IsPriced_example =
    create_checkout_session-IsPriced 1 50 unpaid_shop unpaid_shop-IsPriced refl

create_checkout_session_commits : succeeds (create_checkout_session 1 50 unpaid_shop) ≡ true
unfolding create_checkout_session revoke_expired_sessions get_cart_items get_active_session
    get_default_address replace_session_items update_checkout_session_address
    clear_shipping_selection
create_checkout_session_commits = refl
