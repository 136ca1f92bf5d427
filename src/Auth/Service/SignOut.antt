-- ===== src/Auth/Service/SignOut.antt =====
-- What a new password does to the sessions and the login of a user.
use commerce_core_api.Common.{
  ℕ, ◌≡◌, refl, true, false, not, ◌&&◌, none, some, Text, arith, is_some, is_blank, ◌==◌, ==_refl,
}
use commerce_core_api.Common.Error.{is_committed, Commits}
use commerce_core_api.Common.Table.{find, find_by, update, find_by-update, find-key}
use commerce_core_api.Database.Account.{
  VerificationType, UserDetailRow, SessionMetadata, VerificationRow, TokenRow, Accounts,
}
use commerce_core_api.Auth.Repo.{
  has_verification, find_pending_verification, mark_pending_verification_used, user_key, has_hash,
  has_email, has_user_id, find_user_by_id, find_user_by_email_or_null, update_user_password,
  revoke_all_user_sessions, set_user_password, set_token_revoked, has_verification_id, set_used,
  set_session_revoked, revoke_all_user_refresh_tokens, insert_user_session, insert_refresh_token,
  update_last_login_at,
}
use commerce_core_api.Auth.Tokens.{Crypto, issue_auth_tokens, issue_refresh_token}
use commerce_core_api.Auth.Tokens.Rotation.{is_revoked}
use commerce_core_api.Auth.Service.{reset_password, login}

-- Every token of the user is revoked.
abbrev pub IsSignedOut : ℕ → Accounts → Type 0
IsSignedOut user_id db =
    (hash : Text) (t : TokenRow)
    → find_by (has_hash hash) db.tokens ≡ some t
    → t.user_id ≡ user_id
    → is_revoked t ≡ true

-- What the reset leaves behind.
abbrev signed_out : Text → ℕ → ℕ → ℕ → Accounts → Accounts
signed_out hash user_id id now db = record db {
  users = update (has_user_id user_id) (set_user_password hash) db.users;
  verifications = update (has_verification_id id) (set_used now) db.verifications;
  sessions =
      update (λ x. x.user_id == user_id && not (is_some x.revoked_at)) (set_session_revoked now)
        db.sessions;
  tokens =
      update (λ x. x.user_id == user_id && not (is_some x.revoked_at)) (set_token_revoked now)
        db.tokens;
}

module _ (crypto : Crypto) where
  -- After a password reset has committed, the user's login with the new password succeeds, where the
  -- hash of a password is not blank and is accepted with it, the user is the one of its email, and no
  -- refresh token has the drawn token's hash.
  pub reset_then_login :
      (token password session_raw : Text) (metadata : SessionMetadata) (now later user_id : ℕ)
      (db : Accounts) (v : VerificationRow) (u : UserDetailRow)
      → crypto.compare_password password (crypto.hash_password password) ≡ true
      → is_blank (some (crypto.hash_password password)) ≡ false
      → find_by
          (has_verification (crypto.hash_token token) VerificationType.reset_password)
          db.verifications
        ≡ some v
      → v.user_id ≡ some user_id
      → find user_key user_id db.users ≡ some u
      → find_by (has_email u.email) db.users ≡ some u
      → find_by (has_hash (crypto.hash_token session_raw)) db.tokens ≡ none
      → Commits
          (λ d. is_committed (login crypto u.email password metadata session_raw later d) ≡ true)
          (reset_password crypto token password now db)
  unfolding reset_password find_pending_verification find_user_by_id update_user_password
      mark_pending_verification_used revoke_all_user_sessions revoke_all_user_refresh_tokens login
      find_user_by_email_or_null update_last_login_at issue_auth_tokens insert_user_session
      insert_refresh_token issue_refresh_token
  reset_then_login token password session_raw metadata now later user_id db v u good full e f g h
        fresh =
      ground (
        arith,
        find-key user_key user_id db.users g,
        ==_refl user_id,
        find_by-update (has_email u.email) (has_user_id user_id)
            (set_user_password (crypto.hash_password password)) db.users (λ _. refl),
        find_by-update (has_hash (crypto.hash_token session_raw))
            (λ x. x.user_id == user_id && not (is_some x.revoked_at)) (set_token_revoked now)
            db.tokens (λ _. refl),
      )
