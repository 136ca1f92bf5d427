-- ===== src/Examples/Carts.antt =====
-- The cart and the addresses of a user on the small shop.
use commerce_core_api.Common.{
  ℕ, ◌≡◌, refl, true, not, Option, none, some, List, [], ◌∷◌, codes, arith,
}
use commerce_core_api.Common.Error.{Commits, ok, is_committed}
use commerce_core_api.Images.{ProductImages}
use commerce_core_api.Cart.Held.{held, IsCartDb}
use commerce_core_api.Cart.Refine.{Request, add, change, drop}
use commerce_core_api.Cart.Refine.Requests.{run, run_spec, AgreesWith, requests_refine}
use commerce_core_api.Cart.Repo.{cart_item}
use commerce_core_api.Cart.View.{map_cart_item}
use commerce_core_api.Cart.Warnings.{is_absent, is_blocking, warning_agrees}
use commerce_core_api.Checkout.Guards.{assert_item_valid}
use commerce_core_api.Checkout.Repo.{cart_line, session_item, checkout_item}
use commerce_core_api.User.{Regions, UpsertAddressInput}
use commerce_core_api.User.Addresses.{IsAddressed}
use commerce_core_api.User.Defaults.{handle, create, handle-IsAddressed}
use commerce_core_api.Examples.Data.{unpaid_shop, product, variant}

abbrev no_pictures : ℕ → Option ProductImages
no_pictures id = none

abbrev requests : List Request
requests = add 1 10 2 ∷ add 2 10 99 ∷ change 1 10 4 ∷ drop 2 10 ∷ []

unpaid_cart : IsCartDb unpaid_shop
unpaid_cart = ((refl, tt), (omega arith, tt), ((omega arith, omega arith, omega arith), refl, tt))

requests_refine_example :
    AgreesWith
      (run requests unpaid_shop)
      (run_spec unpaid_shop.variants requests (held unpaid_shop))
requests_refine_example =
    requests_refine requests unpaid_shop
      ((omega arith, omega arith), ((omega arith, omega arith), (omega arith, (tt, tt))))
      unpaid_cart

warning_agrees_example :
    (is_committed (
        assert_item_valid
          (checkout_item
            (session_item 3
              (cart_line (record { cart_id = 1; variant_id = 10; quantity = 2 }) variant product))
            variant
            product)
          unpaid_shop)
      ≡ not (
          is_blocking
            (map_cart_item
              (λ t. t)
              no_pictures
              (cart_item
                (record { cart_id = 1; variant_id = 10; quantity = 2 })
                variant
                product)).warning))
    × ((map_cart_item
          (λ t. t)
          no_pictures
          (cart_item
            (record { cart_id = 1; variant_id = 10; quantity = 2 })
            variant
            product)).is_available
        ≡ not (
            is_absent
              (map_cart_item
                (λ t. t)
                no_pictures
                (cart_item
                  (record { cart_id = 1; variant_id = 10; quantity = 2 })
                  variant
                  product)).warning))
warning_agrees_example =
    warning_agrees (record { cart_id = 1; variant_id = 10; quantity = 2 }) variant product 3
      (λ t. t) no_pictures unpaid_shop (omega arith) refl refl

abbrev bali : Regions
bali = record {
  get_provinces = ok (record { id = 3; name = codes "Bali" } ∷ []);
  get_cities = λ p. ok (record { id = 17; name = codes "Ubud" } ∷ []);
  get_districts = λ c. ok (record { id = 170; name = codes "Ubud" } ∷ []);
}

abbrev second_address : UpsertAddressInput
second_address = record {
  label = none;
  recipient_name = codes "Ann";
  phone = codes "08123456";
  address_line = codes "Street 2";
  shipping_province_id = 3;
  shipping_city_id = 17;
  shipping_district_id = 170;
  postal_code = none;
  is_default = some true;
}

unpaid_addresses : IsAddressed unpaid_shop
unpaid_addresses = (λ u. ground arith, (refl, tt), (omega arith, tt))

handle-IsAddressed_example : Commits IsAddressed (handle bali (create 1 second_address) unpaid_shop)
handle-IsAddressed_example =
    handle-IsAddressed bali (create 1 second_address) unpaid_shop unpaid_addresses
