-- ===== src/User/Repo.antt =====
-- The queries on user_addresses of `class UserRepo` of src/modules/user/user.repo.ts, as transaction
-- steps, with the unique index on the default address of a user. Where a query takes the first of
-- several rows without an order, that is the oldest one here.
use commerce_core_api.Common.{
  ℕ, suc, Bool, true, false, not, ◌&&◌, Option, some, [], ◌∷◌, ◌++◌, Text, ◌==◌,
}
use commerce_core_api.Common.Error.{Tx, gets, modify, throw_if, internal, pure, ◌>>=◌, ◌>>◌}
use commerce_core_api.Common.Table.{find_by, update, matches, select}
use commerce_core_api.Common.Count.{count}
use commerce_core_api.Database.{Database}
use commerce_core_api.Database.Checkout.{AddressRow}

abbrev pub address_key : AddressRow → ℕ
address_key a = a.id

abbrev pub is_of : ℕ → AddressRow → Bool
is_of user_id a = a.user_id == user_id

abbrev pub is_address : ℕ → ℕ → AddressRow → Bool
is_address user_id address_id a = a.id == address_id && a.user_id == user_id

unfoldable pub get_user_address : ℕ → Tx Database (Option AddressRow)
get_user_address user_id = gets λ db. find_by (is_of user_id) db.addresses

unfoldable pub get_address_by_id : ℕ → ℕ → Tx Database (Option AddressRow)
get_address_by_id user_id address_id =
    gets λ db. find_by (is_address user_id address_id) db.addresses

abbrev pub update_addresses : (AddressRow → Bool) → (AddressRow → AddressRow) → Database → Database
update_addresses p f db = record db { addresses = update p f db.addresses }

abbrev pub set_default : Bool → AddressRow → AddressRow
set_default is_default a = record a { is_default = is_default }

unfoldable pub clear_default_address : ℕ → Tx Database (Unit {0})
clear_default_address user_id = modify (update_addresses (is_of user_id) (set_default false))

-- what `createAddress` and `updateAddress` write of an address
pub record AddressInput : Type 0 where
  pub label : Option Text
  pub recipient_name : Text
  pub phone : Text
  pub address_line : Text
  pub province_name : Text
  pub city_name : Text
  pub district_name : Text
  pub postal_code : Option Text
  pub shipping_province_id : ℕ
  pub shipping_city_id : ℕ
  pub shipping_district_id : ℕ

abbrev pub new_address : ℕ → ℕ → Bool → AddressInput → AddressRow
new_address id user_id is_default i = record {
  id = id;
  user_id = user_id;
  label = i.label;
  recipient_name = i.recipient_name;
  phone = i.phone;
  address_line = i.address_line;
  province_name = i.province_name;
  city_name = i.city_name;
  district_name = i.district_name;
  postal_code = i.postal_code;
  shipping_province_id = i.shipping_province_id;
  shipping_city_id = i.shipping_city_id;
  shipping_district_id = some i.shipping_district_id;
  is_default = is_default;
}

abbrev pub is_default_of : ℕ → AddressRow → Bool
is_default_of user_id a = a.user_id == user_id && a.is_default

-- Returns the id of the row.
unfoldable pub insert_address : ℕ → Bool → AddressInput → Tx Database ℕ
insert_address user_id is_default input = do
  taken ← gets λ db. matches (is_default_of user_id) db.addresses
  throw_if (is_default && taken) internal
  id ← gets λ db. db.next_address_id
  modify λ db. record db {
    addresses = db.addresses ++ (new_address id user_id is_default input ∷ []);
    next_address_id = suc id;
  }
  pure id

abbrev pub set_address_input : AddressInput → AddressRow → AddressRow
set_address_input i a = record a {
  label = i.label;
  recipient_name = i.recipient_name;
  phone = i.phone;
  address_line = i.address_line;
  province_name = i.province_name;
  city_name = i.city_name;
  district_name = i.district_name;
  postal_code = i.postal_code;
  shipping_province_id = i.shipping_province_id;
  shipping_city_id = i.shipping_city_id;
  shipping_district_id = some i.shipping_district_id;
}

unfoldable pub write_address : ℕ → ℕ → AddressInput → Tx Database (Unit {0})
write_address user_id address_id input =
    modify (update_addresses (is_address user_id address_id) (set_address_input input))

-- Another default address of the user violates the unique index.
abbrev pub is_other_default : ℕ → ℕ → AddressRow → Bool
is_other_default user_id address_id a = is_default_of user_id a && not (a.id == address_id)

unfoldable pub set_default_address : ℕ → ℕ → Tx Database (Unit {0})
set_default_address user_id address_id = do
  taken ← gets λ db. matches (is_other_default user_id address_id) db.addresses
  exists ← gets λ db. matches (is_address user_id address_id) db.addresses
  throw_if (taken && exists) internal
  modify (update_addresses (is_address user_id address_id) (set_default true))

abbrev pub is_another : ℕ → ℕ → AddressRow → Bool
is_another user_id address_id a = a.user_id == user_id && not (a.id == address_id)

unfoldable pub get_another_address : ℕ → ℕ → Tx Database (Option AddressRow)
get_another_address user_id address_id =
    gets λ db. find_by (is_another user_id address_id) db.addresses

unfoldable pub remove_address : ℕ → ℕ → Tx Database (Unit {0})
remove_address user_id address_id =
    modify λ db. record db {
      addresses = select (λ a. not (is_address user_id address_id a)) db.addresses;
    }

unfoldable pub count_user_addresses : ℕ → Tx Database ℕ
count_user_addresses user_id = gets λ db. count (is_of user_id) db.addresses
