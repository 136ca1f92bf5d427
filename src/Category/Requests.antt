-- ===== src/Category/Requests.antt =====
-- The handlers of src/modules/admin/category/category.service.ts that change the tree.
use commerce_core_api.Common.{ℕ, Option, none, some, List, Text, Option-cases, inl, inr}
use commerce_core_api.Common.Error.{Tx, Commits}
use commerce_core_api.Common.Table.{find}
use commerce_core_api.Category.{
  Catalogue, CategoryInput, category_key, generate_unique_category_slug, find_base_id,
  reorder_category, remove_category, create_category, update_category,
}
use commerce_core_api.Category.Forest.{
  IsForest, insert_category-IsForest, write_category-IsForest, reorder_category-IsForest,
  remove_category-IsForest,
}

pub data CategoryRequest : Type 0 where
  create : CategoryInput → CategoryRequest
  edit : ℕ → CategoryInput → CategoryRequest
  reorder : Option ℕ → List (ℕ × ℕ) → CategoryRequest
  remove : ℕ → CategoryRequest

module _ (string_of : ℕ → Text) (to_base_slug : Text → Text) where
  abbrev pub serve : CategoryRequest → Tx Catalogue (Unit {0})
  serve (create input) = create_category string_of to_base_slug input
  serve (edit id input) = update_category string_of to_base_slug id input
  serve (reorder parent_id input) = reorder_category parent_id input
  serve (remove id) = remove_category id

  create_category-IsForest :
      (input : CategoryInput) (db : Catalogue)
      → IsForest db
      → Commits IsForest (create_category string_of to_base_slug input db)
  unfolding create_category
  create_category-IsForest input db h =
      elim (Option-cases (
        generate_unique_category_slug string_of to_base_slug input.name input.slug input.parent_id
          none db.categories)) [
            | inl e ↦ rw e tt
            | inr (slug, e) ↦ rw e (insert_category-IsForest input slug db h)
          ]

  update_category-IsForest :
      (id : ℕ) (input : CategoryInput) (db : Catalogue)
      → IsForest db
      → Commits IsForest (update_category string_of to_base_slug id input db)
  unfolding update_category find_base_id
  update_category-IsForest id input db h =
      elim (Option-cases (find category_key id db.categories)) [
        | inl e ↦ rw (e, Commits) tt
        | inr (c, e) ↦
            elim (Option-cases (
              generate_unique_category_slug string_of to_base_slug input.name input.slug c.parent_id
                (some id) db.categories)) [
                  | inl f ↦ rw (e, Commits, f) tt
                  | inr (slug, f) ↦ rw (e, Commits, f) (write_category-IsForest id input slug db h)
                ]
      ]

  -- A committed request leaves a tree, where there was one: the path of a category is the path of its
  -- parent, which is there, and its own id, it has at most three ids, and no id that is still to be given
  -- out is taken.
  pub serve-IsForest :
      (r : CategoryRequest) (db : Catalogue) → IsForest db → Commits IsForest (serve r db)
  serve-IsForest (create input) db h = create_category-IsForest input db h
  serve-IsForest (edit id input) db h = update_category-IsForest id input db h
  serve-IsForest (reorder parent_id input) db h = reorder_category-IsForest parent_id input db h
  serve-IsForest (remove id) db h = remove_category-IsForest id db h
