-- ===== src/Auth/Tokens/Rotation.antt =====
-- Refresh tokens that have been presented, and what becomes of their sessions.
use commerce_core_api.Common.{
  ℕ, ◌+◌, ◌≡◌, refl, Bool, true, false, not, ◌&&◌, Option, none, some, Text, arith, is_some,
  Option-cases, inl, inr, ◌==◌, ==_refl,
}
use commerce_core_api.Common.Error.{Result, ok, err, Commits, refresh_token_reuse, ◌>>◌, pure, when}
use commerce_core_api.Common.Table.{
  find, find_by, update, holds, set_if, set_if-some, find_by-update, find-update, find_by-append,
}
use commerce_core_api.Database.Account.{UserDetailRow, UserSessionRow, TokenRow, Accounts}
use commerce_core_api.Auth.Repo.{
  session_key, user_key, has_hash, join_session, set_token_revoked, set_session_revoked,
  set_last_used, new_token, find_user_by_id, update_session_last_used_at, revoke_session,
  revoke_session_refresh_tokens, find_refresh_token_by_hash_for_update, insert_refresh_token,
  revoke_refresh_token,
}
use commerce_core_api.Auth.Tokens.{
  Crypto, RefreshResult, reuse, no_user, refreshed, rotate, refresh_transaction, refresh,
  seven_days, issue_refresh_token, login_result,
}

abbrev pub is_refreshed : Result (RefreshResult × Accounts) → Bool
is_refreshed (ok (refreshed r, db)) = true
is_refreshed (ok (reuse, db)) = false
is_refreshed (ok (no_user, db)) = false
is_refreshed (err e) = false

abbrev pub is_revoked : TokenRow → Bool
is_revoked t = is_some t.revoked_at

-- The token of a hash is there, with its session, and revoked.
abbrev pub IsSpent : Text → Accounts → Type 0
IsSpent hash db =
    holds (λ row. is_revoked row.0) (join_session db (find_by (has_hash hash) db.tokens)) ≡ true

false_is : false ≡ true → ⊥
false_is h = cc

module _ (crypto : Crypto) (hash raw : Text) (now : ℕ) (db : Accounts) (t : TokenRow)
    (s : UserSessionRow) (found : find_by (has_hash hash) db.tokens ≡ some t)
    (session : find session_key t.session_id db.sessions ≡ some s) where
  close-IsSpent :
      is_revoked t ≡ false
      → Commits (IsSpent hash) (
          (revoke_session t.session_id now
              >> revoke_session_refresh_tokens t.session_id now
              >> pure no_user)
            db)
  unfolding revoke_session revoke_session_refresh_tokens
  close-IsSpent live = ground (
    arith,
    ==_refl t.session_id,
    find_by-update (has_hash hash) (λ x. x.session_id == t.session_id && not (is_some x.revoked_at))
        (set_token_revoked now) db.tokens (λ _. refl),
    find-update session_key t.session_id (λ x. x.id == t.session_id && not (is_some x.revoked_at))
        (set_session_revoked now) db.sessions (λ _. refl),
  )

  renew-IsSpent :
      (u : UserDetailRow)
      → Commits (IsSpent hash) (
          (revoke_refresh_token t.id now
              >> issue_refresh_token crypto u.id t.session_id (some t.id) raw now
              >> update_session_last_used_at t.session_id now
              >> pure (refreshed (login_result crypto u raw)))
            db)
  unfolding revoke_refresh_token issue_refresh_token insert_refresh_token
      update_session_last_used_at
  renew-IsSpent u = ground (
    arith,
    ==_refl t.id,
    find_by-append (has_hash hash)
        (new_token db.next_token_id u.id t.session_id (crypto.hash_token raw) (now + seven_days)
          (some t.id))
        (update (λ x. x.id == t.id) (set_token_revoked now) db.tokens),
    find_by-update (has_hash hash) (λ x. x.id == t.id) (set_token_revoked now) db.tokens
        (λ _. refl),
    find-update session_key t.session_id (λ x. x.id == t.session_id) (set_last_used now) db.sessions
        (λ _. refl),
  )

  rotate-IsSpent : is_revoked t ≡ false → Commits (IsSpent hash) (rotate crypto t raw now db)
  unfolding rotate find_user_by_id
  rotate-IsSpent live = elim (Option-cases (find user_key t.user_id db.users)) [
    | inl e ↦ rw (e, Commits, rotate, find_user_by_id) (close-IsSpent live)
    | inr (u, e) ↦ rw (e, Commits, rotate, find_user_by_id) (renew-IsSpent u)
  ]

  keep-IsSpent :
      is_revoked t ≡ true
      → Commits (IsSpent hash) (
          (revoke_session t.session_id now
              >> revoke_session_refresh_tokens t.session_id now
              >> pure reuse)
            db)
  unfolding revoke_session revoke_session_refresh_tokens
  keep-IsSpent dead = ground (
    arith,
    find_by-update (has_hash hash) (λ x. x.session_id == t.session_id && not (is_some x.revoked_at))
        (set_token_revoked now) db.tokens (λ _. refl),
    find-update session_key t.session_id (λ x. x.id == t.session_id && not (is_some x.revoked_at))
        (set_session_revoked now) db.sessions (λ _. refl),
  )

  pub logout-IsSpent :
      Commits (IsSpent hash) (when (not (is_some t.revoked_at)) (revoke_refresh_token t.id now) db)
  unfolding revoke_refresh_token
  logout-IsSpent = ground (
    arith,
    ==_refl t.id,
    find_by-update (has_hash hash) (λ x. x.id == t.id) (set_token_revoked now) db.tokens
        (λ _. refl),
  )

abbrev pub find_row : Text → Accounts → Option (TokenRow × Option ℕ)
find_row hash db = join_session db (find_by (has_hash hash) db.tokens)

pub join_cases :
    (db : Accounts) (o : Option TokenRow) (row : TokenRow × Option ℕ)
    → join_session db o ≡ some row
    → (s : UserSessionRow) × (o ≡ some row.0)
      × (find session_key row.0.session_id db.sessions ≡ some s)
      × (row.1 ≡ s.revoked_at)
join_cases db none row e = cc
join_cases db (some t) row e = elim (Option-cases (find session_key t.session_id db.sessions)) [
  | inl f ↦ absurd (ground arith)
  | inr (s, f) ↦
      let r : (t ≡ row.0) × (s.revoked_at ≡ row.1) = ground arith in
      (s, cc r.0, rw (← r.0) f, cc r.1)
]

module _ (crypto : Crypto) (token raw : Text) (now : ℕ) (db : Accounts) where
  pub refresh-IsSpent :
      Commits (IsSpent (crypto.hash_token token)) (refresh_transaction crypto token raw now db)
  unfolding refresh_transaction find_refresh_token_by_hash_for_update
  refresh-IsSpent = elim (Option-cases (find_row (crypto.hash_token token) db)) [
    | inl e ↦ rw e tt
    | inr (row, e) ↦
        let (s, found, session, at) =
          join_cases db (find_by (has_hash (crypto.hash_token token)) db.tokens) row e in
        rw e (
          ground (
            arith,
            keep-IsSpent crypto (crypto.hash_token token) raw now db row.0 s found session,
            rotate-IsSpent crypto (crypto.hash_token token) raw now db row.0 s found session,
          ))
  ]

  -- A spent token is answered with the error of reuse.
  pub reuse_answer :
      IsSpent (crypto.hash_token token) db
      → (refresh crypto token raw now db).0 ≡ err refresh_token_reuse
  unfolding refresh refresh_transaction find_refresh_token_by_hash_for_update revoke_session
      revoke_session_refresh_tokens
  reuse_answer h = elim (Option-cases (find_row (crypto.hash_token token) db)) [
    | inl e ↦ absurd (false_is (rw e at h))
    | inr (row, e) ↦ let dead : is_revoked row.0 ≡ true = rw e at h in rw (e, dead, refresh) refl
  ]

-- No token of a session is accepted any more.
abbrev pub IsClosed : Crypto → ℕ → Accounts → Type 0
IsClosed crypto session_id db =
    (token raw : Text) (now : ℕ) (row : TokenRow × Option ℕ)
    → find_row (crypto.hash_token token) db ≡ some row
    → row.0.session_id ≡ session_id
    → is_refreshed (refresh_transaction crypto token raw now db) ≡ false

module _ (crypto : Crypto) (token raw : Text) (now : ℕ) (db : Accounts) where
  pub revoked_refused :
      (row : TokenRow × Option ℕ)
      → find_row (crypto.hash_token token) db ≡ some row
      → is_revoked row.0 ≡ true
      → is_refreshed (refresh_transaction crypto token raw now db) ≡ false
  unfolding refresh_transaction find_refresh_token_by_hash_for_update revoke_session
      revoke_session_refresh_tokens
  revoked_refused row e dead = rw (e, dead, refresh_transaction) refl

module _ (crypto : Crypto) (now : ℕ) (db : Accounts) where
  abbrev closing : ℕ → Accounts
  closing k = record db {
    sessions =
        update (λ x. x.id == k && not (is_some x.revoked_at)) (set_session_revoked now) db.sessions;
    tokens =
        update (λ x. x.session_id == k && not (is_some x.revoked_at)) (set_token_revoked now)
          db.tokens;
  }

  revoked_by :
      (k : ℕ) (o : Option TokenRow) (row : TokenRow)
      → set_if (λ x. x.session_id == k && not (is_some x.revoked_at)) (set_token_revoked now) o
        ≡ some row
      → row.session_id ≡ k
      → is_revoked row ≡ true
  revoked_by k o row e h =
      let (t, f, r) =
        set_if-some (λ x. x.session_id == k && not (is_some x.revoked_at)) (set_token_revoked now) o
          row e in
      ground (arith, ==_refl k)

  closing-IsClosed : (k : ℕ) → IsClosed crypto k (closing k)
  closing-IsClosed k token raw later row e h =
      let (s, found, session, at) =
        join_cases (closing k) (find_by (has_hash (crypto.hash_token token)) (closing k).tokens) row
          e in
      revoked_refused crypto token raw later (closing k) row e (
        revoked_by k (find_by (has_hash (crypto.hash_token token)) db.tokens) row.0
          (rw
            (find_by-update (has_hash (crypto.hash_token token))
              (λ x. x.session_id == k && not (is_some x.revoked_at)) (set_token_revoked now)
              db.tokens (λ _. refl))
            at found)
          h)

  -- Presenting a revoked token closes its session: from then on no token of that session is accepted,
  -- also none that was good before.
  pub refresh-IsClosed :
      (token raw : Text) (row : TokenRow × Option ℕ)
      → find_row (crypto.hash_token token) db ≡ some row
      → is_revoked row.0 ≡ true
      → IsClosed crypto row.0.session_id (refresh crypto token raw now db).1
  unfolding refresh refresh_transaction find_refresh_token_by_hash_for_update revoke_session
      revoke_session_refresh_tokens
  refresh-IsClosed token raw row e dead = rw (e, dead, refresh) (closing-IsClosed row.0.session_id)
