-- ===== src/Auth/Tokens/Later.antt =====
-- A refresh token that has been presented, through the log-ins, refreshes, log-outs and password resets that
-- come after it. The clean-up of old sessions, which deletes the rows of their tokens, is not among them.
use commerce_core_api.Common.{
  ℕ, ◌≡◌, true, not, ◌&&◌, Option, some, Text, arith, is_some, Bool-cases, [], inl, inr, ◌==◌,
}
use commerce_core_api.Common.Error.{
  Result-cases, Result, ok, err, Commits, Tx, committed, is_committed, refresh_token_reuse,
}
use commerce_core_api.Common.Table.{find_by}
use commerce_core_api.Database.Account.{UserDetailRow, SessionMetadata, TokenRow, Accounts}
use commerce_core_api.Auth.Repo.{
  has_hash, revoke_all_user_refresh_tokens, find_refresh_token_by_hash_for_update,
  revoke_refresh_token,
}
use commerce_core_api.Auth.Tokens.{Crypto, refresh_transaction, refresh, logout, issue_auth_tokens}
use commerce_core_api.Auth.Tokens.Rotation.{
  IsSpent, is_revoked, find_row, join_cases, refresh-IsSpent, logout-IsSpent, reuse_answer,
}
use commerce_core_api.Auth.Tokens.Spent.{revoked-IsSpent, login-still, refresh-still, logout-still}

-- What becomes of the accounts while users log in, refresh and log out, and while the tokens of a user are
-- revoked, as a password reset does.
pub data Later (crypto : Crypto) (db : Accounts) : Accounts → Type 0 where
  at_once : Later crypto db db
  after_login :
      {d : Accounts}
      → Later crypto db d
      → (u : UserDetailRow) (metadata : SessionMetadata) (raw : Text) (now : ℕ)
      → Later crypto db (committed (issue_auth_tokens crypto u metadata raw now) d)
  after_refresh :
      {d : Accounts}
      → Later crypto db d
      → (token raw : Text) (now : ℕ) → Later crypto db (refresh crypto token raw now d).1
  after_logout :
      {d : Accounts}
      → Later crypto db d
      → (token : Text) (now : ℕ) → Later crypto db (committed (logout crypto token now) d)
  after_revocation :
      {d : Accounts}
      → Later crypto db d
      → (user_id now : ℕ)
      → Later crypto db (committed (revoke_all_user_refresh_tokens user_id now) d)

committed_keeps :
    {A : Type 0} (P : Accounts → Type 0) (m : Tx Accounts A) (db : Accounts)
    → P db
    → Commits P (m db)
    → P (committed m db)
committed_keeps {A} P m db p c = go (m db) c
  where
    go : (r : Result (A × Accounts)) → Commits P r → P (elim r [ ok (a, s') ↦ s' | err e ↦ db ])
    go (ok (a, s')) c = c
    go (err e) c = p

logout_spends :
    (crypto : Crypto) (token : Text) (now : ℕ) (db : Accounts) (row : TokenRow × Option ℕ)
    → find_row (crypto.hash_token token) db ≡ some row
    → IsSpent (crypto.hash_token token) (committed (logout crypto token now) db)
unfolding logout find_refresh_token_by_hash_for_update revoke_refresh_token
logout_spends crypto token now db row e =
    let (s, found, session, at) =
      join_cases db (find_by (has_hash (crypto.hash_token token)) db.tokens) row e in
    let c = logout-IsSpent crypto (crypto.hash_token token) [] now db row.0 s found session in
    rw (e, committed, logout)
      (elim (Bool-cases (is_revoked row.0)) [
        | inl dead ↦ ground (arith, e)
        | inr live ↦ ground (arith, c)
      ])

module _ (crypto : Crypto) where
  refresh_keeps :
      (P : Accounts → Type 0) (token raw : Text) (now : ℕ) (db : Accounts)
      → P db
      → Commits P (refresh_transaction crypto token raw now db)
      → P (refresh crypto token raw now db).1
  unfolding refresh
  refresh_keeps P token raw now db p c =
      elim (Result-cases (refresh_transaction crypto token raw now db)) [
        | inl ((r, db'), e) ↦ rw (e, refresh) (rw e at c)
        | inr (x, e) ↦ rw (e, refresh) p
      ]

  committed_refresh :
      (P : Accounts → Type 0) (token raw : Text) (now : ℕ) (db : Accounts)
      → is_committed (refresh_transaction crypto token raw now db) ≡ true
      → Commits P (refresh_transaction crypto token raw now db)
      → P (refresh crypto token raw now db).1
  unfolding refresh
  committed_refresh P token raw now db h c =
      elim (Result-cases (refresh_transaction crypto token raw now db)) [
        | inl ((r, db'), e) ↦ rw (e, refresh) (rw e at c)
        | inr (x, e) ↦ absurd (ground arith)
      ]

  Later-IsSpent :
      (hash : Text) {db d : Accounts} → IsSpent hash db → Later crypto db d → IsSpent hash d
  unfolding revoke_all_user_refresh_tokens
  Later-IsSpent hash h at_once = h
  Later-IsSpent hash h (after_login {d} l u metadata raw now) =
      let k = Later-IsSpent hash h l in
      committed_keeps (IsSpent hash) (issue_auth_tokens crypto u metadata raw now) d k
        (login-still hash d k crypto u metadata raw now)
  Later-IsSpent hash h (after_refresh {d} l token raw now) =
      let k = Later-IsSpent hash h l in
      refresh_keeps (IsSpent hash) token raw now d k (refresh-still hash d k crypto token raw now)
  Later-IsSpent hash h (after_logout {d} l token now) =
      logout-still hash d (Later-IsSpent hash h l) crypto token now
  Later-IsSpent hash h (after_revocation {d} l user_id now) =
      revoked-IsSpent hash d (Later-IsSpent hash h l)
        (λ t. t.user_id == user_id && not (is_some t.revoked_at)) now

  module _ (token raw : Text) (now later : ℕ) (db d : Accounts) where
    -- Once a `refresh` of a token has committed, whatever it answered, a `refresh` with the same token is
    -- answered with the error of reuse, at any time and with any fresh token, after any series of
    -- log-ins, refreshes, log-outs and revocations of a user's tokens. The clean-up of old sessions, which
    -- deletes the rows of their tokens, is not in the series.
    pub refresh_once :
        (raw' : Text)
        → is_committed (refresh_transaction crypto token raw now db) ≡ true
        → Later crypto (refresh crypto token raw now db).1 d
        → (refresh crypto token raw' later d).0 ≡ err refresh_token_reuse
    refresh_once raw' h l = reuse_answer crypto token raw' later d (
        Later-IsSpent (crypto.hash_token token)
          (committed_refresh (IsSpent (crypto.hash_token token)) token raw now db h
            (refresh-IsSpent crypto token raw now db))
          l)

    -- After a `logout` of a token that was there, a `refresh` with it is answered with the error of reuse,
    -- at any time and with any fresh token, after any series of log-ins, refreshes, log-outs and
    -- revocations of a user's tokens. The clean-up of old sessions, which deletes the rows of their tokens,
    -- is not in the series.
    pub logout_then_refresh :
        (row : TokenRow × Option ℕ)
        → find_row (crypto.hash_token token) db ≡ some row
        → Later crypto (committed (logout crypto token now) db) d
        → (refresh crypto token raw later d).0 ≡ err refresh_token_reuse
    logout_then_refresh row e l =
        reuse_answer crypto token raw later d
          (Later-IsSpent (crypto.hash_token token) (logout_spends crypto token now db row e) l)
