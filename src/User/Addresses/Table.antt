-- ===== src/User/Addresses/Table.antt =====
-- The table user_addresses under the statements of src/modules/user/user.repo.ts: ids, owners and defaults.
use commerce_core_api.Common.{
  ℕ, suc, ◌≤◌, ◌<◌, ◌≡◌, ◌∙◌, sym, refl, Bool, true, false, not, ◌&&◌, none, some, List, [], ◌∷◌,
  ◌++◌, All, arith, ◌==◌, ==_refl, ==→eq, if◌then◌else◌, subst, Bool-cases, inl, inr,
}
use commerce_core_api.Common.Table.{
  find_by, find, find-update, find_by-holds, find-find_by, update, select, IsKeyed, update-IsKeyed,
  append-IsKeyed,
}
use commerce_core_api.Common.Count.{
  count, count-none, count-same, count-select, count_mono, count-update, count-found,
}
use commerce_core_api.Database.{Database}
use commerce_core_api.Database.Checkout.{AddressRow}
use commerce_core_api.User.Repo.{
  is_of, is_default_of, is_address, is_another, update_addresses, address_key, set_default,
  set_address_input, AddressInput,
}
use commerce_core_api.User.Addresses.{
  owned, defaults, one_if_any, IsBook, IsAddressed, owned-cleared, defaults-cleared, owned-chosen,
  defaults-chosen, owned-removed, defaults-removed,
}

abbrev pub IsBelow : ℕ → List AddressRow → Type 0
IsBelow next t = IsKeyed address_key t × All (λ a. a.id < next) t

update-below :
    (next : ℕ) (p : AddressRow → Bool) (f : AddressRow → AddressRow) (t : List AddressRow)
    → ((r : AddressRow) → (f r).id ≡ r.id)
    → All (λ a. a.id < next) t
    → All (λ a. a.id < next) (update p f t)
update-below next p f [] same h = tt
update-below next p f (x ∷ t) same h =
    (ground (arith, same x, h.0), update-below next p f t same h.1)

pub update-IsBelow :
    (next : ℕ) (p : AddressRow → Bool) (f : AddressRow → AddressRow) (t : List AddressRow)
    → ((r : AddressRow) → (f r).id ≡ r.id)
    → IsBelow next t
    → IsBelow next (update p f t)
update-IsBelow next p f t same h =
    (update-IsKeyed address_key p f t same h.0, update-below next p f t same h.1)

find-select :
    (k : ℕ) (p : AddressRow → Bool) (t : List AddressRow)
    → find address_key k t ≡ none
    → find address_key k (select p t) ≡ none
find-select k p [] e = refl
find-select k p (x ∷ t) e = ground (arith, find-select k p t)

pub select-IsBelow :
    (next : ℕ) (p : AddressRow → Bool) (t : List AddressRow)
    → IsBelow next t
    → IsBelow next (select p t)
select-IsBelow next p [] h = h
select-IsBelow next p (x ∷ t) h =
    let rest = select-IsBelow next p t (h.0.1, h.1.1) in
    elim (Bool-cases (p x)) [
      | inl e ↦ rw e ((find-select x.id p t h.0.0, rest.0), (h.1.0, rest.1))
      | inr e ↦ rw e rest
    ]

unused :
    (next : ℕ) (t : List AddressRow) → All (λ a. a.id < next) t → find address_key next t ≡ none
unused next [] h = refl
unused next (x ∷ t) h = ground (arith, unused next t h.1, ==→eq x.id next)

append-below :
    (r : AddressRow) (t : List AddressRow)
    → All (λ a. a.id < r.id) t
    → All (λ a. a.id < suc r.id) (t ++ (r ∷ []))
append-below r [] h = (omega arith, tt)
append-below r (x ∷ t) h = (omega (arith, h.0), append-below r t h.1)

pub append-IsBelow :
    (r : AddressRow) (t : List AddressRow) → IsBelow r.id t → IsBelow (suc r.id) (t ++ (r ∷ []))
append-IsBelow r t h =
    (append-IsKeyed address_key r t (unused r.id t h.1) h.0, append-below r t h.1)

-- The default address is moved to one that exists.
pub chosen-IsBook :
    (user_id id : ℕ) (t : List AddressRow) (r : AddressRow)
    → IsKeyed address_key t
    → find address_key id t ≡ some r
    → r.user_id ≡ user_id
    → ((a : ℕ)
        → (owned a t ≤ 5) × (defaults a t ≡ (if a == user_id then 0 else one_if_any (owned a t))))
    → 1 ≤ owned user_id t
    → IsBook (update (is_address user_id id) (set_default true) t)
chosen-IsBook user_id id t r k e own counts some_there a =
    let (few, ds) = counts a in
    let none_yet : defaults user_id t ≡ 0 = ground (arith, counts user_id, ==_refl user_id) in
    ground (
      arith,
      owned-chosen user_id t id a,
      defaults-chosen user_id t id a r k e own none_yet,
      ==→eq a user_id,
    )

pub written-IsAddressed :
    (user_id id : ℕ) (row : AddressInput) (db : Database)
    → IsAddressed db
    → IsAddressed (update_addresses (is_address user_id id) (set_address_input row) db)
written-IsAddressed user_id id row db h =
    let after =
      update-IsBelow db.next_address_id (is_address user_id id) (set_address_input row) db.addresses
        (λ _. refl) (h.1, h.2) in
    (
      λ a. ground (
        arith,
        h.0 a,
        count-update (is_of a) (is_of a) (is_address user_id id) (set_address_input row)
            db.addresses (λ r. ground arith),
        count-update (is_default_of a) (is_default_of a) (is_address user_id id)
            (set_address_input row) db.addresses (λ r. ground arith),
      ),
      after.0,
      after.1,
    )

-- What a row that a handler has found tells.
abbrev pub IsFound : ℕ → ℕ → List AddressRow → AddressRow → Type 0
IsFound user_id id t r =
    (find address_key id t ≡ some r) × (r.user_id ≡ user_id) × (1 ≤ owned user_id t)

pub found_lem :
    (user_id id : ℕ) (t : List AddressRow) (r : AddressRow)
    → IsKeyed address_key t
    → find_by (is_address user_id id) t ≡ some r
    → IsFound user_id id t r
found_lem user_id id t r k e =
    let test = find_by-holds (is_address user_id id) t e in
    let keyed = find-find_by address_key (is_address user_id id) t k e in
    let same : r.id ≡ id = ground (arith, test, ==→eq r.id id) in
    let mine : r.user_id ≡ user_id = ground (arith, test, ==→eq r.user_id user_id) in
    (
      subst (λ k. find address_key k t ≡ some r) same keyed,
      mine,
      count-found (is_of user_id) (is_address user_id id) t r (λ x h. ground arith) e,
    )

-- Where a user has addresses and no default one, and the others' are as they should be.
abbrev pub IsOpen : ℕ → List AddressRow → Type 0
IsOpen user_id t =
    (a : ℕ)
    → (owned a t ≤ 5) × (defaults a t ≡ (if a == user_id then 0 else one_if_any (owned a t)))

pub cleared-IsOpen :
    (user_id : ℕ) (t : List AddressRow)
    → IsBook t
    → IsOpen user_id (update (is_of user_id) (set_default false) t)
cleared-IsOpen user_id t book a =
    let (few, one) = book a in
    ground (arith, owned-cleared user_id t a, defaults-cleared user_id t a)

pub cleared-IsFound :
    (user_id id : ℕ) (t : List AddressRow) (r : AddressRow)
    → IsFound user_id id t r
    → IsFound user_id id (update (is_of user_id) (set_default false) t) (set_default false r)
cleared-IsFound user_id id t r (keyed, own, there) = (
  ground (
    arith,
    find-update address_key id (is_of user_id) (set_default false) t (λ _. refl),
    keyed,
    own,
    ==_refl user_id,
  ),
  own,
  rw (owned-cleared user_id t user_id) there,
)

-- The addresses that are left after a deletion.
abbrev pub left : ℕ → ℕ → List AddressRow → List AddressRow
left user_id id t = select (λ a. not (is_address user_id id a)) t

module _ (user_id id : ℕ) (t : List AddressRow) (r : AddressRow) (k : IsKeyed address_key t)
    (book : IsBook t) (found : IsFound user_id id t r) where
  pub kept-IsBook : r.is_default ≡ false → IsBook (left user_id id t)
  kept-IsBook f a = ground (
    arith,
    book a,
    owned-removed user_id t id a r k found.0 found.1,
    defaults-removed user_id t id a r k found.0 found.1,
    count_mono (is_default_of a) (is_of a) (left user_id id t) (λ r h. ground arith),
  )

  pub left-IsOpen : r.is_default ≡ true → IsOpen user_id (left user_id id t)
  left-IsOpen f a = ground (
    arith,
    book a,
    owned-removed user_id t id a r k found.0 found.1,
    defaults-removed user_id t id a r k found.0 found.1,
    found.2,
    ==→eq a user_id,
  )

  pub emptied-IsBook :
      r.is_default ≡ true
      → find_by (is_another user_id id) (left user_id id t) ≡ none
      → IsBook (left user_id id t)
  emptied-IsBook f g a =
      let (few, one) = left-IsOpen f a in
      let same : count (λ x. not (is_address user_id id x) && is_of user_id x) t
          ≡ count (λ x. not (is_address user_id id x) && is_another user_id id x) t =
        count-same (λ x. not (is_address user_id id x) && is_of user_id x)
          (λ x. not (is_address user_id id x) && is_another user_id id x) t (λ x. ground arith) in
      let empty : owned user_id (left user_id id t) ≡ 0 =
        count-select (is_of user_id) (λ x. not (is_address user_id id x)) t
        ∙ same
        ∙ sym (count-select (is_another user_id id) (λ x. not (is_address user_id id x)) t)
        ∙ count-none (is_another user_id id) (left user_id id t) g in
      ground (arith, ==→eq a user_id)

pub another-IsFound :
    (user_id id : ℕ) (t : List AddressRow) (x : AddressRow)
    → IsKeyed address_key t
    → find_by (is_another user_id id) t ≡ some x
    → IsFound user_id x.id t x
another-IsFound user_id id t x k g =
    let test = find_by-holds (is_another user_id id) t g in
    let mine : x.user_id ≡ user_id = ground (arith, test, ==→eq x.user_id user_id) in
    (
      find-find_by address_key (is_another user_id id) t k g,
      mine,
      count-found (is_of user_id) (is_another user_id id) t x (λ y h. ground arith) g,
    )
