-- ===== src/Cart/View.antt =====
-- src/modules/cart/cart.mapper.ts and the type of cart.dto.ts.
use commerce_core_api.Common.{
  ℕ, Bool, not, ◌&&◌, ◌||◌, Option, none, some, List, [], ◌∷◌, Text, ◌==◌, ltb, leb, if◌then◌else◌,
}
use commerce_core_api.Common.Int.{ℤ}
use commerce_core_api.Database.Product.{OptionSnapshot, is_active}
use commerce_core_api.Images.{ProductImages, ImageRef, find_best_image}
use commerce_core_api.Cart.Repo.{CartItem}

pub data CartWarning : Type 0 where
  unavailable out_of_stock insufficient_stock low_stock : CartWarning

-- `PRODUCT_LOW_STOCK_THRESHOLD`
abbrev pub low_stock_threshold : ℕ
low_stock_threshold = 5

unfoldable pub get_cart_warning : CartItem → Option CartWarning
get_cart_warning row =
    if not (is_active row.product_status) || not (is_active row.variant_status)
    then some unavailable
    else if row.stock == 0
    then some out_of_stock
    else if ltb row.stock row.quantity
    then some insufficient_stock
    else if leb row.stock low_stock_threshold
    then some low_stock
    else none

-- `CartItemDTO`
pub record CartItemDto : Type 0 where
  pub variant_id : ℕ
  pub product_id : ℕ
  pub name : Text
  pub slug : Text
  pub price : ℤ
  pub quantity : ℕ
  pub stock : ℕ
  pub image_key : Option Text
  pub options : List OptionSnapshot
  pub is_available : Bool
  pub warning : Option CartWarning

abbrev best_or_fallback : Option ImageRef → Option ImageRef → Option ImageRef
best_or_fallback none fallback = fallback
best_or_fallback (some best) fallback = some best

abbrev best_image : (Text → Text) → CartItem → Option ProductImages → Option ImageRef
best_image lower row none = none
best_image lower row (some pi) =
    best_or_fallback (find_best_image lower pi.images row.option_snapshot) pi.fallback

abbrev options_or_empty : Option (List OptionSnapshot) → List OptionSnapshot
options_or_empty none = []
options_or_empty (some os) = os

-- One row; `lower` and the map of pictures are those of `findBestImage`.
unfoldable pub map_cart_item : (Text → Text) → (ℕ → Option ProductImages) → CartItem → CartItemDto
unfolding get_cart_warning
map_cart_item lower image_map row = record {
  variant_id = row.variant_id;
  product_id = row.product_id;
  name = row.name;
  slug = row.slug;
  price = row.price;
  quantity = row.quantity;
  stock = row.stock;
  image_key = elim (best_image lower row (image_map row.product_id)) [
    | none ↦ none
    | some r ↦ some r.image_key
  ];
  options = options_or_empty row.option_snapshot;
  is_available = is_active row.product_status && is_active row.variant_status && ltb 0 row.stock;
  warning = get_cart_warning row;
}

unfoldable pub map_cart_items :
    (Text → Text) → (ℕ → Option ProductImages) → List CartItem → List CartItemDto
map_cart_items lower image_map [] = []
map_cart_items lower image_map (row ∷ t) =
    map_cart_item lower image_map row ∷ map_cart_items lower image_map t
