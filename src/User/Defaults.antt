-- ===== src/User/Defaults.antt =====
-- The handlers of src/modules/user/user.service.ts that change the addresses of a user.
use commerce_core_api.Common.{
  ℕ, ◌≤◌, ◌≡◌, refl, Bool, true, false, not, ◌&&◌, List, [], ◌∷◌, ◌++◌, arith, ◌==◌, ==_refl, ==→eq,
  if◌then◌else◌, Bool-cases, Option-cases, inl, inr, is_some, leb,
}
use commerce_core_api.Common.Error.{Tx, Commits, Commits-bind, pure, when, ◌>>=◌, ◌>>◌}
use commerce_core_api.Common.Table.{find_by, matches}
use commerce_core_api.Common.Count.{count-append, count-found}
use commerce_core_api.Database.{Database}
use commerce_core_api.Database.Checkout.{AddressRow}
use commerce_core_api.User.{
  Regions, UpsertAddressInput, create_address, update_address, make_default, delete_address,
  resolve_regions, wants_default, max_user_addresses,
}
use commerce_core_api.User.Repo.{
  is_of, is_default_of, is_address, is_another, is_other_default, update_addresses, set_default,
  new_address, AddressInput, get_address_by_id, clear_default_address, set_default_address,
  get_another_address, remove_address, write_address, insert_address, count_user_addresses,
  get_user_address,
}
use commerce_core_api.User.Addresses.{
  owned, defaults, one_if_any, IsBook, IsAddressed, owned-cleared,
}
use commerce_core_api.User.Addresses.Table.{
  IsBelow, update-IsBelow, select-IsBelow, append-IsBelow, chosen-IsBook, written-IsAddressed,
  IsFound, found_lem, IsOpen, cleared-IsOpen, cleared-IsFound, left, kept-IsBook, left-IsOpen,
  emptied-IsBook, another-IsFound,
}

-- The checks of an address and its region write nothing.
resolve_regions-reads :
    (regions : Regions) (input : UpsertAddressInput) (db : Database)
    → Commits (λ d. d ≡ db) (resolve_regions regions input db)
unfolding resolve_regions
resolve_regions-reads regions input db = ground arith

choose-IsAddressed :
    (user_id id : ℕ) (db : Database) (r : AddressRow)
    → IsBelow db.next_address_id db.addresses
    → IsFound user_id id db.addresses r
    → IsOpen user_id db.addresses
    → Commits IsAddressed (set_default_address user_id id db)
unfolding set_default_address
choose-IsAddressed user_id id db r below (keyed, own, there) counts =
    elim (Bool-cases (
      matches (is_other_default user_id id) db.addresses
      && matches (is_address user_id id) db.addresses)) [
        | inl m ↦ rw m tt
        | inr m ↦
            let after =
              update-IsBelow db.next_address_id (is_address user_id id) (set_default true)
                db.addresses (λ _. refl) below in
            rw m (
              chosen-IsBook user_id id db.addresses r below.0 keyed own counts there,
              after.0,
              after.1,
            )
      ]

make_default-IsAddressed :
    (user_id id : ℕ) (db : Database)
    → IsAddressed db
    → Commits IsAddressed (make_default user_id id db)
unfolding make_default get_address_by_id clear_default_address
make_default-IsAddressed user_id id db h =
    elim (Option-cases (find_by (is_address user_id id) db.addresses)) [
      | inl e ↦ rw e tt
      | inr (r, e) ↦ rw e (
          choose-IsAddressed user_id id (update_addresses (is_of user_id) (set_default false) db)
            (set_default false r)
            (update-IsBelow db.next_address_id (is_of user_id) (set_default false) db.addresses
              (λ _. refl) (h.1, h.2))
            (cleared-IsFound user_id id db.addresses r (found_lem user_id id db.addresses r h.1 e))
            (cleared-IsOpen user_id db.addresses h.0))
    ]

update_address-IsAddressed :
    (regions : Regions) (user_id id : ℕ) (input : UpsertAddressInput) (db : Database)
    → IsAddressed db
    → Commits IsAddressed (update_address regions user_id id input db)
unfolding update_address get_address_by_id write_address
update_address-IsAddressed regions user_id id input db h =
    elim (Option-cases (find_by (is_address user_id id) db.addresses)) [
      | inl e ↦ rw e tt
      | inr (r, e) ↦ rw e (
          Commits-bind (λ d. d ≡ db) IsAddressed (resolve_regions regions input) _ db
            (resolve_regions-reads regions input db)
            (λ row d run same. rw same (written-IsAddressed user_id id row db h)))
    ]

delete_address-IsAddressed :
    (user_id id : ℕ) (db : Database)
    → IsAddressed db
    → Commits IsAddressed (delete_address user_id id db)
unfolding delete_address get_address_by_id remove_address get_another_address
delete_address-IsAddressed user_id id db h =
    elim (Option-cases (find_by (is_address user_id id) db.addresses)) [
      | inl e ↦ rw e tt
      | inr (r, e) ↦
          let found = found_lem user_id id db.addresses r h.1 e in
          let below =
            select-IsBelow db.next_address_id (λ a. not (is_address user_id id a)) db.addresses
              (h.1, h.2) in
          elim (Bool-cases r.is_default) [
            | inr f ↦
                rw (e, f) (kept-IsBook user_id id db.addresses r h.1 h.0 found f, below.0, below.1)
            | inl f ↦
                elim (Option-cases
                  (find_by (is_another user_id id) (left user_id id db.addresses))) [
                    | inl g ↦
                        rw (e, f, Commits, g)
                          (
                            emptied-IsBook user_id id db.addresses r h.1 h.0 found f g,
                            below.0,
                            below.1,
                          )
                    | inr (x, g) ↦
                        rw (e, f, Commits, g)
                          (choose-IsAddressed user_id x.id
                            (record db { addresses = left user_id id db.addresses }) x below
                            (another-IsFound user_id id (left user_id id db.addresses) x below.0 g)
                            (left-IsOpen user_id id db.addresses r h.1 h.0 found f))
                  ]
          ]
    ]

-- A new address, beside which there is no default one, or which is not the default.
insert-IsAddressed :
    (user_id : ℕ) (is_default : Bool) (row : AddressInput) (db : Database)
    → IsBelow db.next_address_id db.addresses
    → owned user_id db.addresses ≤ 4
    → ((a : ℕ)
        → (owned a db.addresses ≤ 5)
          × (defaults a db.addresses
              ≡ (if a == user_id && is_default then 0 else one_if_any (owned a db.addresses))))
    → (is_default ≡ false → 1 ≤ owned user_id db.addresses)
    → Commits IsAddressed (insert_address user_id is_default row db)
unfolding insert_address
insert-IsAddressed user_id is_default row db below few counts some_there =
    elim (Bool-cases (is_default && matches (is_default_of user_id) db.addresses)) [
      | inl m ↦ rw m tt
      | inr m ↦
          let next = new_address db.next_address_id user_id is_default row in
          let after = append-IsBelow next db.addresses below in
          let book : IsBook (db.addresses ++ (next ∷ [])) = λ a. elim (Bool-cases is_default) [
            | inl d ↦ ground (
              arith,
              counts a,
              few,
              count-append (is_of a) next db.addresses,
              count-append (is_default_of a) next db.addresses,
              ==→eq a user_id,
              ==→eq user_id a,
              ==_refl user_id,
            )
            | inr d ↦ ground (
              arith,
              counts a,
              few,
              some_there d,
              count-append (is_of a) next db.addresses,
              count-append (is_default_of a) next db.addresses,
              ==→eq a user_id,
              ==→eq user_id a,
              ==_refl user_id,
            )
          ] in
          rw m (book, after.0, after.1)
    ]

-- The end of `createAddress`, once the default has been settled.
settled-IsAddressed :
    (user_id : ℕ) (is_default : Bool) (row : AddressInput) (db : Database)
    → IsAddressed db
    → owned user_id db.addresses ≤ 4
    → (is_default ≡ false → 1 ≤ owned user_id db.addresses)
    → Commits IsAddressed (
        (when is_default (clear_default_address user_id) >> insert_address user_id is_default row)
          db)
unfolding clear_default_address
settled-IsAddressed user_id true row db h few there =
    insert-IsAddressed user_id true row (update_addresses (is_of user_id) (set_default false) db)
      (update-IsBelow db.next_address_id (is_of user_id) (set_default false) db.addresses
        (λ _. refl) (h.1, h.2))
      (rw (owned-cleared user_id db.addresses user_id) few)
      (λ a. ground (arith, cleared-IsOpen user_id db.addresses h.0 a)) (λ off. cc)
settled-IsAddressed user_id false row db h few there =
    insert-IsAddressed user_id false row db (h.1, h.2) few (λ a. ground (arith, h.0 a)) there

owns_one :
    (user_id : ℕ) (input : UpsertAddressInput) (t : List AddressRow)
    → (if is_some (find_by (is_of user_id) t) then wants_default input.is_default else true) ≡ false
    → 1 ≤ owned user_id t
owns_one user_id input t off = elim (Option-cases (find_by (is_of user_id) t)) [
  | inl g ↦ ground arith
  | inr (x, g) ↦ count-found (is_of user_id) (is_of user_id) t x (λ y q. q) g
]

create_address-IsAddressed :
    (regions : Regions) (user_id : ℕ) (input : UpsertAddressInput) (db : Database)
    → IsAddressed db
    → Commits IsAddressed (create_address regions user_id input db)
unfolding create_address count_user_addresses get_user_address
create_address-IsAddressed regions user_id input db h =
    elim (Bool-cases (leb max_user_addresses (owned user_id db.addresses))) [
      | inl e ↦ rw e tt
      | inr e ↦
          let few : owned user_id db.addresses ≤ 4 = ground arith in
          rw e (
            Commits-bind (λ d. d ≡ db) IsAddressed (resolve_regions regions input) _ db
              (resolve_regions-reads regions input db)
              (λ row d run same. rw same (
                settled-IsAddressed user_id
                  (if is_some (find_by (is_of user_id) db.addresses)
                    then wants_default input.is_default
                    else true)
                  row db h few (owns_one user_id input db.addresses))))
    ]

pub data AddressRequest : Type 0 where
  create : ℕ → UpsertAddressInput → AddressRequest
  update_one : ℕ → ℕ → UpsertAddressInput → AddressRequest
  choose delete : ℕ → ℕ → AddressRequest

abbrev pub handle : Regions → AddressRequest → Tx Database (Unit {0})
handle regions (create u input) = create_address regions u input >>= λ id. pure tt
handle regions (update_one u id input) = update_address regions u id input
handle regions (choose u id) = make_default u id
handle regions (delete u id) = delete_address u id

-- Whatever the shipping service answers, a request that commits leaves every user with at most five
-- addresses, exactly one of them the default where there is any, and with distinct ids that have been
-- given out, where that was so before.
pub handle-IsAddressed :
    (regions : Regions) (r : AddressRequest) (db : Database)
    → IsAddressed db
    → Commits IsAddressed (handle regions r db)
handle-IsAddressed regions (create u input) db h =
    Commits-bind IsAddressed IsAddressed (create_address regions u input) (λ id. pure tt) db
      (create_address-IsAddressed regions u input db h) (λ id d run k. k)
handle-IsAddressed regions (update_one u id input) db h =
    update_address-IsAddressed regions u id input db h
handle-IsAddressed regions (choose u id) db h = make_default-IsAddressed u id db h
handle-IsAddressed regions (delete u id) db h = delete_address-IsAddressed u id db h
