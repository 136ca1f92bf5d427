-- ===== src/User/Addresses.antt =====
-- The default address of a user, under the handlers of src/modules/user/user.service.ts.
pub mod Table
use commerce_core_api.Common.{
  ℕ, suc, ◌+◌, ◌≤◌, ◌<◌, ◌≡◌, ◌∙◌, refl, Bool, true, false, not, ◌&&◌, ◌||◌, Option, none, some,
  List, [], ◌∷◌, ◌++◌, All, arith, ◌==◌, ==_refl, ==→eq, if◌then◌else◌, Bool-cases, Option-cases,
  inl, inr, is_some, leb,
}
use commerce_core_api.Common.Error.{Result, ok, err, Commits, ◌>>=◌, ◌>>◌}
use commerce_core_api.Common.Table.{
  find_by, find, update, matches, select, IsKeyed, update-IsKeyed, append-IsKeyed,
}
use commerce_core_api.Common.Count.{
  count, count-update, count-select, count-append, count-same, count-split, count-none, count-false,
  count-key,
}
use commerce_core_api.Database.{Database}
use commerce_core_api.Database.Checkout.{AddressRow}
use commerce_core_api.User.Repo.{
  is_of, is_default_of, is_address, is_another, address_key, set_default, set_address_input,
  new_address, AddressInput,
}

-- How many addresses, and how many default addresses, a user has.
abbrev pub owned : ℕ → List AddressRow → ℕ
owned user_id t = count (is_of user_id) t

abbrev pub defaults : ℕ → List AddressRow → ℕ
defaults user_id t = count (is_default_of user_id) t

abbrev pub one_if_any : ℕ → ℕ
one_if_any n = if n == 0 then 0 else 1

-- At most five addresses, and one default address where there is any.
abbrev pub IsBook : List AddressRow → Type 0
IsBook t =
    (user_id : ℕ) → (owned user_id t ≤ 5) × (defaults user_id t ≡ one_if_any (owned user_id t))

-- Besides, the ids are distinct and have been given out.
abbrev pub IsAddressed : Database → Type 0
IsAddressed db =
    IsBook db.addresses
    × IsKeyed address_key db.addresses
    × All (λ a. a.id < db.next_address_id) db.addresses

module _ (user_id : ℕ) (t : List AddressRow) where
  pub owned-cleared : (a : ℕ) → owned a (update (is_of user_id) (set_default false) t) ≡ owned a t
  owned-cleared a =
      count-update (is_of a) (is_of a) (is_of user_id) (set_default false) t (λ r. ground arith)

  pub defaults-cleared :
      (a : ℕ)
      → defaults a (update (is_of user_id) (set_default false) t)
        ≡ (if a == user_id then 0 else defaults a t)
  defaults-cleared a = elim (Bool-cases (a == user_id)) [
    | inl e ↦ ground (
      arith,
      count-update (is_default_of a) (λ r. false) (is_of user_id) (set_default false) t
          (λ r. ground (arith, ==→eq a user_id)),
      count-false t,
    )
    | inr e ↦ ground (
      arith,
      count-update (is_default_of a) (is_default_of a) (is_of user_id) (set_default false) t
          (λ r. ground (arith, ==→eq r.user_id user_id, ==→eq r.user_id a)),
    )
  ]

  -- An address that exists becomes the default where there is none.
  pub owned-chosen :
      (id a : ℕ) → owned a (update (is_address user_id id) (set_default true) t) ≡ owned a t
  owned-chosen id a =
      count-update (is_of a) (is_of a) (is_address user_id id) (set_default true) t
        (λ r. ground arith)

  abbrev chosen : ℕ → AddressRow → Bool
  chosen id x = is_default_of user_id x || is_address user_id id x

  pub defaults-chosen :
      (id a : ℕ) (r : AddressRow)
      → IsKeyed address_key t
      → find address_key id t ≡ some r
      → r.user_id ≡ user_id
      → defaults user_id t ≡ 0
      → defaults a (update (is_address user_id id) (set_default true) t)
        ≡ (if a == user_id then 1 else defaults a t)
  defaults-chosen id a r k e own none_yet = elim (Bool-cases (a == user_id)) [
    | inl f ↦
        let rest = count-split (is_default_of user_id) (is_address user_id id) t in
        let both = count-split (chosen id) (is_address user_id id) t in
        let named : count (λ x. is_address user_id id x && chosen id x) t ≡ 1 =
          count-same (λ x. is_address user_id id x && chosen id x)
            (λ x. address_key x == id && is_of user_id x) t (λ x. ground arith)
          ∙ count-key address_key id (is_of user_id) t r k e
          ∙ ground (arith, own, ==_refl user_id) in
        let others : count (λ x. not (is_address user_id id x) && chosen id x) t
            ≡ count (λ x. not (is_address user_id id x) && is_default_of user_id x) t =
          count-same (λ x. not (is_address user_id id x) && chosen id x)
            (λ x. not (is_address user_id id x) && is_default_of user_id x) t (λ x. ground arith) in
        let updated =
          count-update (is_default_of a) (chosen id) (is_address user_id id) (set_default true) t
            (λ x. ground (arith, ==→eq a user_id)) in
        ground (arith, rest, both, named, others, updated)
    | inr f ↦ ground (
      arith,
      count-update (is_default_of a) (is_default_of a) (is_address user_id id) (set_default true) t
          (λ r. ground (arith, ==→eq r.user_id user_id, ==→eq r.user_id a)),
    )
  ]

  pub owned-removed :
      (id a : ℕ) (r : AddressRow)
      → IsKeyed address_key t
      → find address_key id t ≡ some r
      → r.user_id ≡ user_id
      → owned a t
        ≡ owned a (select (λ x. not (is_address user_id id x)) t) + (if a == user_id then 1 else 0)
  owned-removed id a r k e own =
      let gone : count (λ x. is_address user_id id x && is_of a x) t
          ≡ (if a == user_id then 1 else 0) =
        count-same (λ x. is_address user_id id x && is_of a x)
          (λ x. address_key x == id && (is_of user_id x && is_of a x)) t (λ x. ground arith)
        ∙ count-key address_key id (λ x. is_of user_id x && is_of a x) t r k e
        ∙ ground (arith, own, ==_refl user_id, ==→eq user_id a, ==→eq a user_id) in
      ground (
        arith,
        count-split (is_of a) (is_address user_id id) t,
        count-select (is_of a) (λ x. not (is_address user_id id x)) t,
        gone,
      )

  pub defaults-removed :
      (id a : ℕ) (r : AddressRow)
      → IsKeyed address_key t
      → find address_key id t ≡ some r
      → r.user_id ≡ user_id
      → defaults a t
        ≡ defaults a (select (λ x. not (is_address user_id id x)) t)
          + (if a == user_id && r.is_default then 1 else 0)
  defaults-removed id a r k e own =
      let gone : count (λ x. is_address user_id id x && is_default_of a x) t
          ≡ (if a == user_id && r.is_default then 1 else 0) =
        count-same (λ x. is_address user_id id x && is_default_of a x)
          (λ x. address_key x == id && (is_of user_id x && is_default_of a x)) t (λ x. ground arith)
        ∙ count-key address_key id (λ x. is_of user_id x && is_default_of a x) t r k e
        ∙ ground (arith, own, ==_refl user_id, ==→eq user_id a, ==→eq a user_id) in
      ground (
        arith,
        count-split (is_default_of a) (is_address user_id id) t,
        count-select (is_default_of a) (λ x. not (is_address user_id id x)) t,
        gone,
      )
