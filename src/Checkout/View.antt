-- ===== src/Checkout/View.antt =====
-- What a user sees of a checkout: src/modules/user/checkout/checkout.user.mapper.ts (`buildAddressSnapshot`
-- is in Checkout.Repo).
pub mod Agrees
use commerce_core_api.Common.{
  ℕ, Bool, true, false, not, ◌&&◌, ◌||◌, Option, none, some, List, [], ◌∷◌, Text, is_blank, ltb,
  ◌==◌, if◌then◌else◌,
}
use commerce_core_api.Common.Int.{ℤ, pos, ◌+ℤ◌, ◌*ℤ◌, eqb_ℤ}
use commerce_core_api.Database.Product.{OptionSnapshot, is_active}
use commerce_core_api.Database.Checkout.{SessionRow}
use commerce_core_api.Images.{ProductImages, ImageRef, find_best_image}
use commerce_core_api.Checkout.Guards.{CheckoutItem}

pub data ItemWarning : Type 0 where
  unavailable insufficient_stock : ItemWarning

-- an item of `mapSessionItem`
pub record SessionItem : Type 0 where
  pub variant_id : ℕ
  pub product_id : ℕ
  pub product_name : Text
  pub image_key : Option Text
  pub slug : Text
  pub price : ℤ
  pub quantity : ℕ
  pub stock : ℕ
  pub weight : ℤ
  pub options : List OptionSnapshot
  pub is_available : Bool
  pub warning : Option ItemWarning

abbrev best_or_fallback : Option ImageRef → Option ImageRef → Option ImageRef
best_or_fallback none fallback = fallback
best_or_fallback (some best) fallback = some best

abbrev best_image : (Text → Text) → CheckoutItem → Option ProductImages → Option ImageRef
best_image lower r none = none
best_image lower r (some pi) =
    best_or_fallback (find_best_image lower pi.images r.option_snapshot) pi.fallback

abbrev text_or_empty : Option Text → Text
text_or_empty none = []
text_or_empty (some s) = s

module _ (lower : Text → Text) (image_map : ℕ → Option ProductImages) where
  abbrev pub session_item_of : CheckoutItem → SessionItem
  session_item_of r =
      let available = is_active r.variant_status && is_active r.product_status in
      record {
        variant_id = r.variant_id;
        product_id = r.product_id;
        product_name = r.product_name;
        image_key = elim (best_image lower r (image_map r.product_id)) [
          | none ↦ none
          | some i ↦ some i.image_key
        ];
        slug = r.slug;
        price = r.price;
        quantity = r.quantity;
        stock = r.stock;
        weight = r.weight;
        options = elim r.option_snapshot [ none ↦ [] | some os ↦ os ];
        is_available = available;
        warning =
            if not available
            then some unavailable
            else if ltb r.stock r.quantity
            then some insufficient_stock
            else none;
      }

  abbrev pub map_session_item : List CheckoutItem → List SessionItem
  map_session_item [] = []
  map_session_item (r ∷ t) = session_item_of r ∷ map_session_item t

pub data Reason : Type 0 where
  invalid_items no_address no_shipping shipping_not_calculated : Reason

-- the loop of `resolveCheckoutState`: whether it runs to its end
abbrev pub items_pass : List SessionItem → Bool
items_pass [] = true
items_pass (i ∷ t) =
    let rest = items_pass t in
    if not i.is_available
    then false
    else elim i.warning [ some insufficient_stock ↦ false | _ ↦ rest ]

-- `!value` on a number
abbrev pub is_zero_or_null : Option ℤ → Bool
is_zero_or_null none = true
is_zero_or_null (some c) = eqb_ℤ c (pos 0)

-- `canPlaceOrder`, and the reason where it is false
unfoldable pub resolve_checkout_state : List SessionItem → SessionRow → Bool → Bool × Option Reason
resolve_checkout_state items s has_address =
    if not (items_pass items)
    then (false, some invalid_items)
    else if not has_address
    then (false, some no_address)
    else if is_blank s.courier_code || is_blank s.courier_service
    then (false, some no_shipping)
    else if is_zero_or_null s.shipping_cost
    then (false, some shipping_not_calculated)
    else (true, none)

-- an id that is neither null nor 0
abbrev pub is_id : Option ℕ → Bool
is_id none = false
is_id (some k) = not (k == 0)

unfoldable pub has_valid_address : SessionRow → Bool
has_valid_address s =
    not (is_blank s.recipient_name)
    && not (is_blank s.phone)
    && not (is_blank s.address_line)
    && not (is_blank s.province_name)
    && not (is_blank s.city_name)
    && not (is_blank s.district_name)
    && is_id s.shipping_city_id

pub record SessionAddress : Type 0 where
  pub id : Option ℕ
  pub recipient_name : Text
  pub phone : Text
  pub address_line : Text
  pub province_name : Text
  pub city_name : Text
  pub district_name : Text
  pub postal_code : Text

abbrev pub map_user_address : SessionRow → SessionAddress
map_user_address s = record {
  id = s.address_id;
  recipient_name = text_or_empty s.recipient_name;
  phone = text_or_empty s.phone;
  address_line = text_or_empty s.address_line;
  province_name = text_or_empty s.province_name;
  city_name = text_or_empty s.city_name;
  district_name = text_or_empty s.district_name;
  postal_code = text_or_empty s.postal_code;
}

-- the two `reduce`s
abbrev pub sum_weight : ℤ → List SessionItem → ℤ
sum_weight acc [] = acc
sum_weight acc (i ∷ t) = sum_weight (acc +ℤ i.weight *ℤ pos i.quantity) t

abbrev pub sum_price : ℤ → List SessionItem → ℤ
sum_price acc [] = acc
sum_price acc (i ∷ t) = sum_price (acc +ℤ i.price *ℤ pos i.quantity) t

abbrev pub or_amount : Option ℤ → ℤ → ℤ
or_amount none d = d
or_amount (some a) d = a

-- `CheckoutSessionDTO`
pub record CheckoutSessionDto : Type 0 where
  pub session_id : ℕ
  pub expires_at : ℕ
  pub subtotal : ℤ
  pub shipping_cost : ℤ
  pub total : ℤ
  pub total_weight : ℤ
  pub address : Option SessionAddress
  pub courier_code : Option Text
  pub courier_name : Option Text
  pub courier_service : Option Text
  pub shipping_etd : Option Text
  pub items : List SessionItem
  pub can_place_order : Bool
  pub reason : Option Reason

unfoldable pub map_checkout_session :
    (Text → Text) → (ℕ → Option ProductImages) → SessionRow → List CheckoutItem → CheckoutSessionDto
map_checkout_session lower image_map s rows =
    let items = map_session_item lower image_map rows in
    let state = resolve_checkout_state items s (has_valid_address s) in
    record {
      session_id = s.id;
      expires_at = s.expires_at;
      subtotal = or_amount s.subtotal (sum_price (pos 0) items);
      shipping_cost = or_amount s.shipping_cost (pos 0);
      total = or_amount s.total (pos 0);
      total_weight = sum_weight (pos 0) items;
      address = if has_valid_address s then some (map_user_address s) else none;
      courier_code = s.courier_code;
      courier_name = s.courier_name;
      courier_service = s.courier_service;
      shipping_etd = s.shipping_etd;
      items = items;
      can_place_order = state.0;
      reason = state.1;
    }
