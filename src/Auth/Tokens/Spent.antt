-- ===== src/Auth/Tokens/Spent.antt =====
-- What each operation on sessions and tokens leaves of a refresh token that has been presented.
use commerce_core_api.Common.{
  ℕ, ◌+◌, ◌≡◌, refl, Bool, true, not, ◌&&◌, none, some, Text, arith, is_some, Option-cases, inl,
  inr, ◌==◌,
}
use commerce_core_api.Common.Error.{Commits, committed, ◌>>◌, pure}
use commerce_core_api.Common.Table.{
  find, find_by, update, find_by-update, find-update, find_by-append, find-append,
}
use commerce_core_api.Database.Account.{
  UserDetailRow, UserSessionRow, SessionMetadata, TokenRow, Accounts,
}
use commerce_core_api.Auth.Repo.{
  session_key, user_key, has_hash, set_token_revoked, set_session_revoked, set_last_used, new_token,
  new_session, revoke_session, revoke_session_refresh_tokens, find_refresh_token_by_hash_for_update,
  insert_refresh_token, revoke_refresh_token, update_session_last_used_at, find_user_by_id,
  insert_user_session,
}
use commerce_core_api.Auth.Tokens.{
  Crypto, RefreshResult, reuse, no_user, refreshed, login_result, rotate, refresh_transaction,
  logout, issue_refresh_token, issue_auth_tokens, seven_days,
}
use commerce_core_api.Auth.Tokens.Rotation.{IsSpent, is_revoked, find_row, join_cases}

-- The row of a hash is there, revoked, and so is its session.
abbrev HasSpent : Text → Accounts → Type 0
HasSpent hash db =
    (t : TokenRow) × (s : UserSessionRow) × (find_by (has_hash hash) db.tokens ≡ some t)
    × (find session_key t.session_id db.sessions ≡ some s)
    × (is_revoked t ≡ true)

module _ (hash : Text) (db : Accounts) where
  spent_rows : IsSpent hash db → HasSpent hash db
  spent_rows h = elim (Option-cases (find_row hash db)) [
    | inl e ↦ absurd (ground arith)
    | inr (row, e) ↦
        let (s, found, session, at) = join_cases db (find_by (has_hash hash) db.tokens) row e in
        (row.0, s, found, session, ground arith)
  ]

  module _ (spent : IsSpent hash db) where
    -- A revocation of tokens and a change of sessions.
    marked-IsSpent :
        (p : TokenRow → Bool) (now : ℕ) (q : UserSessionRow → Bool)
        (f : UserSessionRow → UserSessionRow)
        → ((s : UserSessionRow) → session_key (f s) ≡ session_key s)
        → IsSpent hash (record db {
          tokens = update p (set_token_revoked now) db.tokens;
          sessions = update q f db.sessions;
        })
    marked-IsSpent p now q f ff =
        let (t, s, found, session, dead) = spent_rows spent in
        ground (
          arith,
          find_by-update (has_hash hash) p (set_token_revoked now) db.tokens (λ _. refl),
          find-update session_key t.session_id q f db.sessions ff,
        )

    pub revoked-IsSpent :
        (p : TokenRow → Bool) (now : ℕ)
        → IsSpent hash (record db { tokens = update p (set_token_revoked now) db.tokens })
    revoked-IsSpent p now =
        let (t, s, found, session, dead) = spent_rows spent in
        ground
          (arith, find_by-update (has_hash hash) p (set_token_revoked now) db.tokens (λ _. refl))

    pub login-still :
        (crypto : Crypto) (u : UserDetailRow) (metadata : SessionMetadata) (raw : Text) (now : ℕ)
        → Commits (IsSpent hash) (issue_auth_tokens crypto u metadata raw now db)
    unfolding issue_auth_tokens issue_refresh_token insert_refresh_token insert_user_session
    login-still crypto u metadata raw now =
        let (t, s, found, session, dead) = spent_rows spent in
        ground (
          arith,
          find_by-append (has_hash hash)
              (new_token db.next_token_id u.id db.next_session_id (crypto.hash_token raw)
                (now + seven_days) none)
              db.tokens,
          find-append session_key t.session_id (new_session db.next_session_id u.id metadata now)
              db.sessions,
        )

    renew-still :
        (crypto : Crypto) (x : TokenRow) (u : UserDetailRow) (raw : Text) (now : ℕ)
        → Commits (IsSpent hash) (
            (revoke_refresh_token x.id now
                >> issue_refresh_token crypto u.id x.session_id (some x.id) raw now
                >> update_session_last_used_at x.session_id now
                >> pure (refreshed (login_result crypto u raw)))
              db)
    unfolding revoke_refresh_token issue_refresh_token insert_refresh_token
        update_session_last_used_at
    renew-still crypto x u raw now =
        let (t, s, found, session, dead) = spent_rows spent in
        ground (
          arith,
          find_by-append (has_hash hash)
              (new_token db.next_token_id u.id x.session_id (crypto.hash_token raw)
                (now + seven_days) (some x.id))
              (update (λ y. y.id == x.id) (set_token_revoked now) db.tokens),
          find_by-update (has_hash hash) (λ y. y.id == x.id) (set_token_revoked now) db.tokens
              (λ _. refl),
          find-update session_key t.session_id (λ y. y.id == x.session_id) (set_last_used now)
              db.sessions (λ _. refl),
        )

    close-still :
        (x : TokenRow) (r : RefreshResult) (now : ℕ)
        → Commits (IsSpent hash) (
            (revoke_session x.session_id now
                >> revoke_session_refresh_tokens x.session_id now
                >> pure r)
              db)
    unfolding revoke_session revoke_session_refresh_tokens
    close-still x r now =
        marked-IsSpent (λ y. y.session_id == x.session_id && not (is_some y.revoked_at)) now
          (λ y. y.id == x.session_id && not (is_some y.revoked_at)) (set_session_revoked now)
          (λ _. refl)

    rotate-still :
        (crypto : Crypto) (x : TokenRow) (raw : Text) (now : ℕ)
        → Commits (IsSpent hash) (rotate crypto x raw now db)
    unfolding rotate find_user_by_id
    rotate-still crypto x raw now = elim (Option-cases (find user_key x.user_id db.users)) [
      | inl e ↦ rw (e, Commits, rotate, find_user_by_id) (close-still x no_user now)
      | inr (u, e) ↦ rw (e, Commits, rotate, find_user_by_id) (renew-still crypto x u raw now)
    ]

    pub refresh-still :
        (crypto : Crypto) (token raw : Text) (now : ℕ)
        → Commits (IsSpent hash) (refresh_transaction crypto token raw now db)
    unfolding refresh_transaction find_refresh_token_by_hash_for_update
    refresh-still crypto token raw now =
        elim (Option-cases (find_row (crypto.hash_token token) db)) [
          | inl e ↦ rw e tt
          | inr (row, e) ↦
              rw e (ground (arith, close-still row.0 reuse now, rotate-still crypto row.0 raw now))
        ]

    pub logout-still :
        (crypto : Crypto) (token : Text) (now : ℕ)
        → IsSpent hash (committed (logout crypto token now) db)
    unfolding logout find_refresh_token_by_hash_for_update revoke_refresh_token
    logout-still crypto token now = elim (Option-cases (find_row (crypto.hash_token token) db)) [
      | inl e ↦ rw (e, committed, logout) spent
      | inr (row, e) ↦
          rw (e, committed, logout)
            (ground (arith, spent, revoked-IsSpent (λ y. y.id == row.0.id) now))
    ]
