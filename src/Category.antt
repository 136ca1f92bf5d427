-- ===== src/Category.antt =====
-- The tree of categories: `class CategoryRepo` of src/modules/admin/category/category.repo.ts,
-- category.slug.ts and the handlers of category.service.ts that change it. A path is the list of its
-- segments: `id_path` from the root to the category, and `slug_path` likewise; a slug has no slash.
-- `slugify` is a parameter, and so is the text of a number.
pub mod Slugs
pub mod Forest
pub mod Requests
use commerce_core_api.Common.{
  ℕ, zero, suc, ◌+◌, Bool, true, false, not, ◌&&◌, ◌||◌, Option, none, some, List, [], ◌∷◌, ◌++◌,
  map, length, Text, text_eq, codes, includes, is_some, max, leb, ◌==◌, if◌then◌else◌,
}
use commerce_core_api.Common.Error.{
  Tx, gets, modify, throw_if, or_throw, pure, bad_request, not_found, internal, ◌>>=◌, ◌>>◌,
}
use commerce_core_api.Common.Table.{find, find_by, update, matches, select}
use commerce_core_api.Common.Count.{count}

pub data CategoryStatus : Type 0 where
  active inactive : CategoryStatus

pub record CategoryRow : Type 0 where
  pub id : ℕ
  pub parent_id : Option ℕ
  pub name : Text
  pub slug : Text
  pub description : Option Text
  pub sort_order : ℕ
  pub status : CategoryStatus
  pub id_path : List ℕ
  pub slug_path : List Text

-- The categories that banners and products point at are given by their ids.
pub record Catalogue : Type 0 where
  pub categories : List CategoryRow
  pub banner_targets : List ℕ
  pub product_categories : List ℕ
  pub next_category_id : ℕ

abbrev pub category_key : CategoryRow → ℕ
category_key c = c.id

-- `IS NOT DISTINCT FROM`
abbrev pub same_parent : Option ℕ → Option ℕ → Bool
same_parent none none = true
same_parent none (some b) = false
same_parent (some a) none = false
same_parent (some a) (some b) = a == b

abbrev pub is_sibling : Option ℕ → CategoryRow → Bool
is_sibling parent_id c = same_parent c.parent_id parent_id

-- A sibling other than the excluded row that has the slug.
abbrev pub has_slug : Option ℕ → Option ℕ → Text → CategoryRow → Bool
has_slug parent_id exclude_id slug c =
    is_sibling parent_id c
    && text_eq c.slug slug
    && elim exclude_id [ none ↦ true | some k ↦ not (c.id == k) ]

module _ (string_of : ℕ → Text) where
  -- `${baseSlug}-${counter}`
  abbrev pub numbered : Text → ℕ → Text
  numbered base counter = base ++ (codes "-" ++ string_of counter)

  -- The loop, from the slug that is tried next; nothing where the fuel runs out.
  unfoldable pub search_slug :
      ℕ → Option ℕ → Option ℕ → Text → Text → ℕ → List CategoryRow → Option Text
  search_slug zero parent_id exclude_id base slug counter rows = none
  search_slug (suc fuel) parent_id exclude_id base slug counter rows =
      let rest =
        search_slug fuel parent_id exclude_id base (numbered base counter) (suc counter) rows in
      if matches (has_slug parent_id exclude_id slug) rows then rest else some slug

  -- `generateUniqueCategorySlug`
  unfoldable pub generate_unique_category_slug :
      (Text → Text) → Text → Option Text → Option ℕ → Option ℕ → List CategoryRow → Option Text
  generate_unique_category_slug to_base_slug name slug_from_client parent_id exclude_id rows =
      let base = to_base_slug (elim slug_from_client [ none ↦ name | some s ↦ s ]) in
      search_slug (suc (length rows)) parent_id exclude_id base base 2 rows

-- `CategoryUpsertSchema`; an update has no parent
pub record CategoryInput : Type 0 where
  pub parent_id : Option ℕ
  pub name : Text
  pub slug : Option Text
  pub description : Option Text
  pub status : CategoryStatus

unfoldable pub find_base_id : ℕ → Tx Catalogue CategoryRow
find_base_id id = do
  found ← gets λ db. find category_key id db.categories
  or_throw found (not_found "Category not found")

-- `MAX(sort_order)` of the siblings, plus one
abbrev pub next_sort_order : Option ℕ → List CategoryRow → ℕ
next_sort_order parent_id [] = 0
next_sort_order parent_id (c ∷ t) =
    let rest = next_sort_order parent_id t in
    if is_sibling parent_id c then max (suc c.sort_order) rest else rest

abbrev pub depth_of : Option CategoryRow → ℕ
depth_of none = 1
depth_of (some c) = length c.id_path

unfoldable pub assert_max_depth : Option ℕ → Tx Catalogue (Unit {0})
assert_max_depth none = pure tt
assert_max_depth (some parent_id) = do
  parent ← gets λ db. find category_key parent_id db.categories
  throw_if (leb 3 (depth_of parent)) (bad_request "Maximum category depth reached")

abbrev pub parent_paths : Option ℕ → Tx Catalogue (List ℕ × List Text)
parent_paths none = pure ([], [])
parent_paths (some parent_id) = do
  found ← gets λ db. find category_key parent_id db.categories
  parent ← or_throw found (bad_request "Invalid parent category")
  pure (parent.id_path, parent.slug_path)

abbrev pub new_category : ℕ → CategoryInput → Text → ℕ → List ℕ → List Text → CategoryRow
new_category id input slug sort_order id_path slug_path = record {
  id = id;
  parent_id = input.parent_id;
  name = input.name;
  slug = slug;
  description = input.description;
  sort_order = sort_order;
  status = input.status;
  id_path = id_path;
  slug_path = slug_path;
}

abbrev pub path_eq : List Text → List Text → Bool
path_eq [] [] = true
path_eq [] (y ∷ ys) = false
path_eq (x ∷ xs) [] = false
path_eq (x ∷ xs) (y ∷ ys) = text_eq x y && path_eq xs ys

-- the unique index on the parent and the slug, in which two nulls differ
abbrev pub pair_taken : Option ℕ → Option ℕ → Text → List CategoryRow → Bool
pair_taken none exclude_id slug rows = false
pair_taken (some parent_id) exclude_id slug rows =
    matches (has_slug (some parent_id) exclude_id slug) rows

abbrev pub is_there : Option ℕ → List CategoryRow → Bool
is_there none rows = true
is_there (some id) rows = is_some (find category_key id rows)

-- `CategoryRepo.create`, with the foreign key on the parent and the unique indexes on the parent and the
-- slug and on the slug's path. The row is inserted with its paths, which the code writes by a second
-- statement.
unfoldable pub insert_category : CategoryInput → Text → Tx Catalogue (Unit {0})
insert_category input slug = do
  assert_max_depth input.parent_id
  rows ← gets λ db. db.categories
  throw_if (pair_taken input.parent_id none slug rows || not (is_there input.parent_id rows))
      internal
  paths ← parent_paths input.parent_id
  throw_if (matches (λ c. path_eq c.slug_path (paths.1 ++ (slug ∷ []))) rows) internal
  modify λ db. record db {
    categories =
        db.categories
        ++ (new_category db.next_category_id input slug (next_sort_order input.parent_id rows)
              (paths.0 ++ (db.next_category_id ∷ [])) (paths.1 ++ (slug ∷ []))
            ∷ []);
    next_category_id = suc db.next_category_id;
  }

abbrev pub update_categories :
    (CategoryRow → Bool) → (CategoryRow → CategoryRow) → Catalogue → Catalogue
update_categories p f db = record db { categories = update p f db.categories }

abbrev pub has_category_id : ℕ → CategoryRow → Bool
has_category_id id c = c.id == id

abbrev pub set_basics : CategoryInput → Text → List Text → CategoryRow → CategoryRow
set_basics input slug slug_path c = record c {
  name = input.name;
  description = input.description;
  slug = slug;
  status = input.status;
  slug_path = slug_path;
}

-- What follows a prefix of a path.
abbrev pub strip_prefix : List Text → List Text → Option (List Text)
strip_prefix [] path = some path
strip_prefix (x ∷ xs) [] = none
strip_prefix (x ∷ xs) (y ∷ ys) = let rest = strip_prefix xs ys in if text_eq x y then rest else none

-- `LIKE 'old/%'` and `regexp_replace` of the old path
abbrev pub move_path : List Text → List Text → CategoryRow → CategoryRow
move_path old new c = elim (strip_prefix old c.slug_path) [
  | none ↦ c
  | some [] ↦ c
  | some (x ∷ rest) ↦ record c { slug_path = new ++ (x ∷ rest) }
]

-- `CategoryRepo.update`; the unique index on the path is checked for the category's own.
unfoldable pub write_category : ℕ → CategoryInput → Text → Tx Catalogue (Unit {0})
write_category category_id input slug = do
  found ← gets λ db. find category_key category_id db.categories
  existing ← or_throw found (not_found "Category not found")
  rows ← gets λ db. db.categories
  throw_if (pair_taken existing.parent_id (some category_id) slug rows) internal
  paths ← parent_paths existing.parent_id
  let new_path : List Text = paths.1 ++ (slug ∷ [])
  throw_if (matches (λ c. path_eq c.slug_path new_path && not (c.id == category_id)) rows) internal
  modify (update_categories (has_category_id category_id) (set_basics input slug new_path))
  modify
      (update_categories (λ c. not (c.id == category_id)) (move_path existing.slug_path new_path))

abbrev pub order_for : List (ℕ × ℕ) → ℕ → Option ℕ
order_for [] id = none
order_for ((k, sort_order) ∷ t) id = if k == id then some sort_order else order_for t id

abbrev pub is_listed : Option ℕ → List (ℕ × ℕ) → CategoryRow → Bool
is_listed parent_id input c = is_sibling parent_id c && is_some (order_for input c.id)

abbrev pub set_sort_order : List (ℕ × ℕ) → CategoryRow → CategoryRow
set_sort_order input c = elim (order_for input c.id) [
  | none ↦ c
  | some n ↦ record c { sort_order = n }
]

-- The input gives ids with their new positions.
unfoldable pub reorder_category : Option ℕ → List (ℕ × ℕ) → Tx Catalogue (Unit {0})
reorder_category parent_id input = do
  affected ← gets λ db. count (is_listed parent_id input) db.categories
  modify (update_categories (is_listed parent_id input) (set_sort_order input))
  throw_if (not (affected == length input))
      (bad_request "Some categories do not belong to this parent")

-- Children and products restrict the deletion.
unfoldable pub remove_category : ℕ → Tx Catalogue (Unit {0})
remove_category category_id = do
  used ← gets λ db. includes category_id db.banner_targets
  throw_if used (bad_request "Category is still used by a banner")
  found ← gets λ db. find category_key category_id db.categories
  blocked ← gets λ db.
      matches (is_sibling (some category_id)) db.categories
      || includes category_id db.product_categories
  throw_if (is_some found && blocked) internal
  modify λ db. record db { categories = select (λ c. not (c.id == category_id)) db.categories }
  category ← or_throw found (not_found "Category not found")
  pure tt

module _ (string_of : ℕ → Text) (to_base_slug : Text → Text) where
  -- `create` and `update` of category.service.ts. The retry after a unique violation is left out.
  unfoldable pub create_category : CategoryInput → Tx Catalogue (Unit {0})
  create_category input = do
    rows ← gets λ db. db.categories
    slug ←
        or_throw
          (generate_unique_category_slug string_of to_base_slug input.name input.slug
            input.parent_id none rows)
          internal
    insert_category input slug

  unfoldable pub update_category : ℕ → CategoryInput → Tx Catalogue (Unit {0})
  update_category category_id input = do
    existing ← find_base_id category_id
    rows ← gets λ db. db.categories
    slug ←
        or_throw
          (generate_unique_category_slug string_of to_base_slug input.name input.slug
            existing.parent_id (some category_id) rows)
          internal
    write_category category_id input slug
