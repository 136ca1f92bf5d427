-- ===== src/Checkout/Pricing/Opening.antt =====
-- Opening a session, or taking a cart into the open one, and the totals of sessions.
use commerce_core_api.Common.{
  ℕ, ◌≡◌, refl, sym, ◌∙◌, ap, subst, Bool, false, not, none, some, List, [], ◌∷◌, ◌++◌, map, arith,
  if◌then◌else◌, Option-cases, Bool-cases, inl, inr, ◌==◌, ==→eq, ==_refl,
}
use commerce_core_api.Common.Int.{ℤ, pos}
use commerce_core_api.Common.Table.{
  find, update, select, or_else, set_if-some, find-update, find-append, find-key, update-IsKeyed,
  append-IsKeyed,
}
use commerce_core_api.Database.{Database}
use commerce_core_api.Database.Checkout.{SessionRow, SessionItemRow}
use commerce_core_api.Checkout.Repo.{
  session_key, has_session_id, is_item_of_session, session_item, CartLine, join_session_items,
  update_sessions,
}
use commerce_core_api.Checkout.Session.{subtotal_of}
use commerce_core_api.Checkout.Pricing.{IsPriced, IsPricedAt, IsUnpriced, session_value}

-- The items of another session are not touched by a replacement.
pub select-replace :
    (k id : ℕ) (xs : List SessionItemRow) (ys : List CartLine)
    → (id == k) ≡ false
    → select
        (is_item_of_session k)
        (select (λ i. not (is_item_of_session id i)) xs ++ map (session_item id) ys)
      ≡ select (is_item_of_session k) xs
select-replace k id [] [] h = refl
select-replace k id [] (y ∷ ys) h = ground (arith, select-replace k id [] ys h)
select-replace k id (x ∷ xs) ys h =
    ground (arith, select-replace k id xs ys h, ==→eq x.checkout_session_id id)

pub select-insert :
    (k id : ℕ) (xs : List SessionItemRow) (ys : List CartLine)
    → (id == k) ≡ false
    → select (is_item_of_session k) (xs ++ map (session_item id) ys)
      ≡ select (is_item_of_session k) xs
select-insert k id [] [] h = refl
select-insert k id [] (y ∷ ys) h = ground (arith, select-insert k id [] ys h)
select-insert k id (x ∷ xs) ys h = ground (arith, select-insert k id xs ys h)

join-same :
    (db d : Database) (xs : List SessionItemRow)
    → d.products ≡ db.products
    → d.variants ≡ db.variants
    → join_session_items d xs ≡ join_session_items db xs
join-same db d [] p v = refl
join-same db d (x ∷ xs) p v = rw (p, v, join-same db d xs p v) refl

-- A session whose items are the same has the same value.
value-same :
    (db d : Database) (k : ℕ)
    → d.products ≡ db.products
    → d.variants ≡ db.variants
    → select (is_item_of_session k) d.session_items ≡ select (is_item_of_session k) db.session_items
    → session_value d k ≡ session_value db k
value-same db d k p v items = ap (subtotal_of (pos 0)) (
    join-same db d (select (is_item_of_session k) d.session_items) p v
    ∙ ap (join_session_items db) items)

unpriced : (value : ℤ) (s : SessionRow) → IsUnpriced s → IsPricedAt value s
unpriced value s h = rw h.0 (h.1, h.2)

module _ (db : Database) (c : IsPriced db) where
  -- A change of all sessions that keeps their ids and totals.
  pub same_totals-IsPriced :
      (p : SessionRow → Bool) (f : SessionRow → SessionRow)
      → ((s : SessionRow) → session_key (f s) ≡ session_key s)
      → ((s : SessionRow) (k : ℕ)
          → IsPricedAt (session_value db k) s
          → IsPricedAt (session_value db k) (f s))
      → IsPriced (update_sessions p f db)
  same_totals-IsPriced p f ff keep = record {
    sessions_keyed = update-IsKeyed session_key p f db.sessions ff c.sessions_keyed;
    priced = λ k s e.
        let (s0, e0, r) =
          set_if-some p f (find session_key k db.sessions) s
            (rw (find-update session_key k p f db.sessions ff) at e) in
        elim (Bool-cases (p s0)) [
          | inl h ↦ rw (← r, h) (keep s0 k (c.priced k s0 e0))
          | inr h ↦ rw (← r, h) (c.priced k s0 e0)
        ];
  }

  -- New items for a session whose totals are cleared with them.
  pub cleared-IsPriced :
      (id : ℕ) (f : SessionRow → SessionRow) (items : List SessionItemRow)
      → ((s : SessionRow) → session_key (f s) ≡ session_key s)
      → ((s : SessionRow) → IsUnpriced (f s))
      → ((k : ℕ)
          → (id == k) ≡ false
          → select (is_item_of_session k) items ≡ select (is_item_of_session k) db.session_items)
      → IsPriced
          (record db { sessions = update (has_session_id id) f db.sessions; session_items = items })
  cleared-IsPriced id f items ff none_left others = record {
    sessions_keyed =
        update-IsKeyed session_key (has_session_id id) f db.sessions ff c.sessions_keyed;
    priced = λ k s e.
        let (s0, e0, r) =
          set_if-some (has_session_id id) f (find session_key k db.sessions) s
            (rw (find-update session_key k (has_session_id id) f db.sessions ff) at e) in
        elim (Bool-cases (s0.id == id)) [
          | inl h ↦ rw (← r, h) (unpriced _ (f s0) (none_left s0))
          | inr h ↦
              let at_k = find-key session_key k db.sessions e0 in
              let away : (id == k) ≡ false = ground (arith, at_k, ==→eq id k, ==_refl id) in
              let same =
                value-same db
                  (record db {
                    sessions = update (has_session_id id) f db.sessions;
                    session_items = items;
                  })
                  k refl refl (others k away) in
              rw (← r, h) (subst (λ v. IsPricedAt v s0) (sym same) (c.priced k s0 e0))
        ];
  }

  -- A new session without totals, and its items.
  pub opened-IsPriced :
      (new : SessionRow) (items : List SessionItemRow)
      → find session_key new.id db.sessions ≡ none
      → IsUnpriced new
      → ((k : ℕ)
          → (new.id == k) ≡ false
          → select (is_item_of_session k) items ≡ select (is_item_of_session k) db.session_items)
      → (next : ℕ)
      → IsPriced (record db {
        sessions = db.sessions ++ (new ∷ []);
        session_items = items;
        next_session_id = next;
      })
  opened-IsPriced new items fresh none_left others next = record {
    sessions_keyed = append-IsKeyed session_key new db.sessions fresh c.sessions_keyed;
    priced = λ k s e.
        let d : Database = record db {
          sessions = db.sessions ++ (new ∷ []);
          session_items = items;
          next_session_id = next;
        } in
        let e1 : or_else (find session_key k db.sessions) (if new.id == k then some new else none)
            ≡ some s =
          rw (find-append session_key k new db.sessions) at e in
        elim (Option-cases (find session_key k db.sessions)) [
          | inl f ↦
              let row : new ≡ s = ground arith in
              subst (λ x. IsPricedAt (session_value d k) x) row
                (unpriced (session_value d k) new none_left)
          | inr (s0, f) ↦
              let row : s0 ≡ s = ground arith in
              let away : (new.id == k) ≡ false = ground (arith, ==→eq new.id k) in
              let same = value-same db d k refl refl (others k away) in
              subst (λ x. IsPricedAt (session_value d k) x) row
                (subst (λ v. IsPricedAt v s0) (sym same) (c.priced k s0 f))
        ];
  }
