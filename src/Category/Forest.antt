-- ===== src/Category/Forest.antt =====
-- The tree of src/modules/admin/category/category.repo.ts: the path of ids and the depth of a category.
use commerce_core_api.Common.{
  ℕ, suc, ◌≤◌, ◌≡◌, ◌∙◌, sym, ap, subst, refl, Bool, false, not, Option, none, some, List, [], ◌∷◌,
  ◌++◌, length, length-append, Text, arith, if◌then◌else◌, Bool-cases, Option-cases, inl, inr, ◌==◌,
  ==→eq, ==_refl, leb,
}
use commerce_core_api.Common.Error.{Commits}
use commerce_core_api.Common.Table.{
  find, update, matches, select, set_if-some, find-update, find-append,
}
use commerce_core_api.Category.{
  Catalogue, CategoryRow, CategoryInput, category_key, same_parent, is_sibling, new_category,
  assert_max_depth, insert_category, update_categories, has_category_id, set_basics, move_path,
  write_category, is_listed, set_sort_order, reorder_category, remove_category, next_sort_order,
}

-- The path that the children of a parent start with.
abbrev pub path_of : List CategoryRow → Option ℕ → Option (List ℕ)
path_of rows none = some []
path_of rows (some p) = elim (find category_key p rows) [ none ↦ none | some c ↦ some c.id_path ]

-- The path of a category is its parent's, which is there, and its own id; it has at most three ids.
abbrev pub IsPlaced : List CategoryRow → CategoryRow → Type 0
IsPlaced rows c =
    (prefix : List ℕ) × (path_of rows c.parent_id ≡ some prefix)
    × (c.id_path ≡ prefix ++ (c.id ∷ []))
    × (length c.id_path ≤ 3)

-- Every category is placed, and no category has an id that is still to be given out.
abbrev pub IsForest : Catalogue → Type 0
IsForest db =
    ((k : ℕ) (c : CategoryRow)
      → find category_key k db.categories ≡ some c
      → IsPlaced db.categories c)
    × ((k : ℕ) → db.next_category_id ≤ k → find category_key k db.categories ≡ none)

path_of-append :
    (row : CategoryRow) (rows : List CategoryRow) (o : Option ℕ) (prefix : List ℕ)
    → path_of rows o ≡ some prefix
    → path_of (rows ++ (row ∷ [])) o ≡ some prefix
path_of-append row rows none prefix e = e
path_of-append row rows (some k) prefix e = elim (Option-cases (find category_key k rows)) [
  | inl f ↦ ground arith
  | inr (c, f) ↦ ground (arith, find-append category_key k row rows)
]

module _ (p : CategoryRow → Bool) (f : CategoryRow → CategoryRow) (db : Catalogue)
    (ids : (c : CategoryRow) → (f c).id ≡ c.id)
    (parents : (c : CategoryRow) → (f c).parent_id ≡ c.parent_id)
    (paths : (c : CategoryRow) → (f c).id_path ≡ c.id_path) where
  path_of-update : (o : Option ℕ) → path_of (update p f db.categories) o ≡ path_of db.categories o
  path_of-update none = refl
  path_of-update (some k) = elim (Option-cases (find category_key k db.categories)) [
    | inl e ↦ ground (arith, find-update category_key k p f db.categories ids)
    | inr (c, e) ↦ ground (arith, find-update category_key k p f db.categories ids, paths c)
  ]

  update-IsPlaced :
      (k : ℕ) (c : CategoryRow)
      → ((c : CategoryRow) → find category_key k db.categories ≡ some c → IsPlaced db.categories c)
      → find category_key k (update p f db.categories) ≡ some c
      → IsPlaced (update p f db.categories) c
  update-IsPlaced k c placed e =
      let (o, there, changed) =
        set_if-some p f (find category_key k db.categories) c
          (rw (find-update category_key k p f db.categories ids) at e) in
      let (prefix, at, path, depth) = placed o there in
      let same_parent_id : c.parent_id ≡ o.parent_id = ground (arith, parents o) in
      let same_id : c.id ≡ o.id = ground (arith, ids o) in
      let same_path : c.id_path ≡ o.id_path = ground (arith, paths o) in
      (
        prefix,
        ap (path_of (update p f db.categories)) same_parent_id ∙ path_of-update o.parent_id ∙ at,
        same_path ∙ path ∙ ap (λ i. prefix ++ (i ∷ [])) (sym same_id),
        subst (λ l. length l ≤ 3) (sym same_path) depth,
      )

  update-IsForest : IsForest db → IsForest (update_categories p f db)
  update-IsForest h = (
    λ k c e. update-IsPlaced k c (h.0 k) e,
    λ k below. rw (find-update category_key k p f db.categories ids, h.1 k below) refl,
  )

placed-IsForest :
    (input : CategoryInput) (slug : Text) (sort_order : ℕ) (prefix : List ℕ) (slugs : List Text)
    (db : Catalogue)
    → IsForest db
    → path_of db.categories input.parent_id ≡ some prefix
    → length prefix ≤ 2
    → IsForest (record db {
      categories =
          db.categories
          ++ (new_category db.next_category_id input slug sort_order
                (prefix ++ (db.next_category_id ∷ []))
                slugs
              ∷ []);
      next_category_id = suc db.next_category_id;
    })
placed-IsForest input slug sort_order prefix slugs db h at short =
    let row =
      new_category db.next_category_id input slug sort_order (prefix ++ (db.next_category_id ∷ []))
        slugs in
    (
      λ k c e. elim (Option-cases (find category_key k db.categories)) [
        | inr (o, there) ↦
            let same : o ≡ c = ground (arith, find-append category_key k row db.categories) in
            let (before, at_o, path, depth) = h.0 k o there in
            rw (← same)
              (before, path_of-append row db.categories o.parent_id before at_o, path, depth)
        | inl there ↦
            let same : row ≡ c = ground (arith, find-append category_key k row db.categories) in
            rw (← same) (
              prefix,
              path_of-append row db.categories input.parent_id prefix at,
              refl,
              omega (arith, length-append prefix (db.next_category_id ∷ []), short),
            )
      ],
      λ k below.
          let none_there = h.1 k (omega (arith, below)) in
          ground (arith, find-append category_key k row db.categories, ==→eq db.next_category_id k),
    )

pub insert_category-IsForest :
    (input : CategoryInput) (slug : Text) (db : Catalogue)
    → IsForest db
    → Commits IsForest (insert_category input slug db)
unfolding insert_category assert_max_depth
insert_category-IsForest input slug db h = elim (Option-cases input.parent_id) [
  | inl e ↦ ground (
    arith,
    placed-IsForest input slug (next_sort_order input.parent_id db.categories) [] (slug ∷ []) db h
        (rw e refl) (omega arith),
  )
  | inr (k, e) ↦ elim (Option-cases (find category_key k db.categories)) [
    | inl f ↦ ground arith
    | inr (c, f) ↦ elim (Bool-cases (leb 3 (length c.id_path))) [
      | inl deep ↦ ground arith
      | inr shallow ↦
          let at : path_of db.categories input.parent_id ≡ some c.id_path = ground arith in
          ground (
            arith,
            placed-IsForest input slug (next_sort_order input.parent_id db.categories) c.id_path
                (c.slug_path ++ (slug ∷ [])) db h at (ground arith),
          )
    ]
  ]
]

-- Neither the fields of a category nor the slugs of its subtree touch the path of ids.
moved-IsForest :
    (category_id : ℕ) (input : CategoryInput) (slug : Text) (old new : List Text) (db : Catalogue)
    → IsForest db
    → IsForest (
        update_categories
          (λ c. not (c.id == category_id))
          (move_path old new)
          (update_categories (has_category_id category_id) (set_basics input slug new) db))
moved-IsForest category_id input slug old new db h =
    update-IsForest (λ c. not (c.id == category_id)) (move_path old new)
      (update_categories (has_category_id category_id) (set_basics input slug new) db)
      (λ c. ground arith) (λ c. ground arith) (λ c. ground arith)
      (update-IsForest (has_category_id category_id) (set_basics input slug new) db (λ c. refl)
        (λ c. refl) (λ c. refl) h)

pub write_category-IsForest :
    (category_id : ℕ) (input : CategoryInput) (slug : Text) (db : Catalogue)
    → IsForest db
    → Commits IsForest (write_category category_id input slug db)
unfolding write_category
write_category-IsForest category_id input slug db h =
    elim (Option-cases (find category_key category_id db.categories)) [
      | inl e ↦ ground arith
      | inr (c, e) ↦ elim (Option-cases c.parent_id) [
        | inl f ↦ ground (arith, moved-IsForest category_id input slug c.slug_path (slug ∷ []) db h)
        | inr (k, f) ↦ elim (Option-cases (find category_key k db.categories)) [
          | inl g ↦ ground arith
          | inr (parent, g) ↦ ground (
            arith,
            moved-IsForest category_id input slug c.slug_path (parent.slug_path ++ (slug ∷ [])) db
                h,
          )
        ]
      ]
    ]

pub reorder_category-IsForest :
    (parent_id : Option ℕ) (input : List (ℕ × ℕ)) (db : Catalogue)
    → IsForest db
    → Commits IsForest (reorder_category parent_id input db)
unfolding reorder_category
reorder_category-IsForest parent_id input db h = ground (
  arith,
  update-IsForest (is_listed parent_id input) (set_sort_order input) db (λ c. ground arith)
      (λ c. ground arith) (λ c. ground arith) h,
)

find-removed :
    (id k : ℕ) (rows : List CategoryRow)
    → find category_key k (select (λ c. not (c.id == id)) rows)
      ≡ (if k == id then none else find category_key k rows)
find-removed id k [] = ground arith
find-removed id k (c ∷ t) =
    ground (arith, find-removed id k t, ==→eq c.id id, ==→eq c.id k, ==→eq k id, ==_refl k)

-- A category that is the parent of one that is there is not removed.
kept_parent :
    (id k : ℕ) (rows : List CategoryRow) (c : CategoryRow)
    → matches (is_sibling (some id)) rows ≡ false
    → find category_key k rows ≡ some c
    → same_parent c.parent_id (some id) ≡ false
kept_parent id k [] c m e = cc
kept_parent id k (x ∷ t) c m e = elim (Bool-cases (x.id == k)) [
  | inl f ↦ ground arith
  | inr f ↦ kept_parent id k t c (ground arith) (ground arith)
]

path_of-removed :
    (id : ℕ) (rows : List CategoryRow) (o : Option ℕ)
    → same_parent o (some id) ≡ false
    → path_of (select (λ c. not (c.id == id)) rows) o ≡ path_of rows o
path_of-removed id rows none h = refl
path_of-removed id rows (some k) h = ground (arith, find-removed id k rows)

removed-IsForest :
    (id : ℕ) (db : Catalogue)
    → IsForest db
    → matches (is_sibling (some id)) db.categories ≡ false
    → IsForest (record db { categories = select (λ c. not (c.id == id)) db.categories })
removed-IsForest id db h m = (
  λ k c e.
      let there : find category_key k db.categories ≡ some c =
        ground (arith, find-removed id k db.categories) in
      let (prefix, at, path, depth) = h.0 k c there in
      (
        prefix,
        path_of-removed id db.categories c.parent_id (kept_parent id k db.categories c m there)
            ∙ at,
        path,
        depth,
      ),
  λ k below. ground (arith, find-removed id k db.categories, h.1 k below),
)

pub remove_category-IsForest :
    (category_id : ℕ) (db : Catalogue)
    → IsForest db
    → Commits IsForest (remove_category category_id db)
unfolding remove_category
remove_category-IsForest category_id db h =
    elim (Option-cases (find category_key category_id db.categories)) [
      | inl e ↦ ground arith
      | inr (c, e) ↦ elim (Bool-cases (matches (is_sibling (some category_id)) db.categories)) [
        | inl m ↦ ground arith
        | inr m ↦ ground (arith, removed-IsForest category_id db h m)
      ]
    ]
