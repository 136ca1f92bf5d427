-- ===== src/User.antt =====
-- The addresses of a user: the handlers of `class UserService` of src/modules/user/user.service.ts that
-- change them. `Regions` holds the answers of `ShippingService` (src/modules/shipping/shipping.service.ts),
-- each a list of ids and names.
pub mod Repo
pub mod Addresses
pub mod Defaults
use commerce_core_api.Common.{
  ℕ, Bool, true, false, not, Option, none, some, List, [], ◌∷◌, Text, leb, ◌==◌, if◌then◌else◌,
  is_some,
}
use commerce_core_api.Common.Error.{
  Tx, Result, ok, err, throw_if, or_throw, when, pure, bad_request, not_found, ◌>>=◌, ◌>>◌,
}
use commerce_core_api.Common.Table.{find}
use commerce_core_api.Database.{Database}
use Repo.{
  AddressInput, count_user_addresses, get_user_address, get_address_by_id, clear_default_address,
  insert_address, write_address, set_default_address, get_another_address, remove_address,
}

-- `Province`, `City` and `District`
pub record Region : Type 0 where
  pub id : ℕ
  pub name : Text

abbrev pub region_key : Region → ℕ
region_key r = r.id

-- Each may fail.
pub record Regions : Type 0 where
  pub get_provinces : Result (List Region)
  pub get_cities : ℕ → Result (List Region)
  pub get_districts : ℕ → Result (List Region)

-- `UpsertAddressInput`
pub record UpsertAddressInput : Type 0 where
  pub label : Option Text
  pub recipient_name : Text
  pub phone : Text
  pub address_line : Text
  pub shipping_province_id : ℕ
  pub shipping_city_id : ℕ
  pub shipping_district_id : ℕ
  pub postal_code : Option Text
  pub is_default : Option Bool

abbrev pub max_user_addresses : ℕ
max_user_addresses = 5

abbrev pub answered : Result (List Region) → Tx Database (List Region)
answered (ok l) db = ok (l, db)
answered (err e) db = err e

-- `input.isDefault ?? false`
abbrev pub wants_default : Option Bool → Bool
wants_default none = false
wants_default (some b) = b

module _ (regions : Regions) where
  -- The three checks of `createAddress` and `updateAddress`, and the row that they make.
  unfoldable pub resolve_regions : UpsertAddressInput → Tx Database AddressInput
  resolve_regions input = do
    provinces ← answered regions.get_provinces
    province ←
        or_throw (find region_key input.shipping_province_id provinces)
          (bad_request "Invalid province")
    cities ← answered (regions.get_cities input.shipping_province_id)
    city ← or_throw (find region_key input.shipping_city_id cities) (bad_request "Invalid city")
    districts ← answered (regions.get_districts input.shipping_city_id)
    district ←
        or_throw (find region_key input.shipping_district_id districts)
          (bad_request "Invalid district")
    pure (record {
      label = input.label;
      recipient_name = input.recipient_name;
      phone = input.phone;
      address_line = input.address_line;
      province_name = province.name;
      city_name = city.name;
      district_name = district.name;
      postal_code = input.postal_code;
      shipping_province_id = province.id;
      shipping_city_id = city.id;
      shipping_district_id = district.id;
    })

  -- Returns the id of the address.
  unfoldable pub create_address : ℕ → UpsertAddressInput → Tx Database ℕ
  create_address user_id input = do
    address_count ← count_user_addresses user_id
    throw_if (leb max_user_addresses address_count) (bad_request "Maximum 5 addresses allowed")
    row ← resolve_regions input
    existing ← get_user_address user_id
    let is_default = if is_some existing then wants_default input.is_default else true
    when is_default (clear_default_address user_id)
    insert_address user_id is_default row

  unfoldable pub update_address : ℕ → ℕ → UpsertAddressInput → Tx Database (Unit {0})
  update_address user_id address_id input = do
    found ← get_address_by_id user_id address_id
    address ← or_throw found (not_found "Address not found")
    row ← resolve_regions input
    write_address user_id address_id row

unfoldable pub make_default : ℕ → ℕ → Tx Database (Unit {0})
make_default user_id address_id = do
  found ← get_address_by_id user_id address_id
  address ← or_throw found (not_found "Address not found")
  clear_default_address user_id
  set_default_address user_id address_id

unfoldable pub delete_address : ℕ → ℕ → Tx Database (Unit {0})
delete_address user_id address_id = do
  found ← get_address_by_id user_id address_id
  address ← or_throw found (not_found "Address not found")
  remove_address user_id address_id
  if address.is_default
      then (get_another_address user_id address_id >>= λ another. elim another [
        | none ↦ pure tt
        | some other ↦ set_default_address user_id other.id
      ])
      else pure tt
