-- ===== src/Auth/Tokens.antt =====
-- The sessions and refresh tokens of src/modules/auth/auth.service.ts: `issueAuthTokens`, `refresh` and
-- `logout`. `raw` is what `generateRefreshToken` draws, `now` is `new Date()` and `NOW()`, and `Crypto`
-- holds the functions of the runtime and of bcrypt.
pub mod Rotation
pub mod Spent
pub mod Later
use commerce_core_api.Common.{
  ℕ, ◌+◌, ◌*◌, Bool, true, false, not, Option, none, some, Text, is_some, ltb, if◌then◌else◌,
}
use commerce_core_api.Common.Error.{
  AppError, Tx, Result, ok, err, throw_if, or_throw, when, pure, unauthorized,
  refresh_token_expired, refresh_token_reuse, invalid_refresh_token, session_revoked, ◌>>=◌, ◌>>◌,
}
use commerce_core_api.Database.Account.{
  UserRole, UserDetailRow, SessionMetadata, TokenRow, Accounts,
}
use commerce_core_api.Auth.Repo.{
  find_user_by_id, insert_user_session, update_session_last_used_at, revoke_session,
  revoke_session_refresh_tokens, find_refresh_token_by_hash_for_update, insert_refresh_token,
  revoke_refresh_token,
}

pub record Crypto : Type 0 where
  pub hash_token : Text → Text
  pub hash_password : Text → Text
  pub compare_password : Text → Text → Bool
  pub sign_access_token : ℕ → UserRole → Bool → Text

-- `AuthUser`
pub record AuthUser : Type 0 where
  pub id : ℕ
  pub email : Text
  pub role : UserRole
  pub display_name : Option Text
  pub is_demo : Bool

-- `AuthLoginResult`
pub record AuthLoginResult : Type 0 where
  pub user : AuthUser
  pub access_token : Text
  pub refresh_token : Text

abbrev pub build_auth_user : UserDetailRow → AuthUser
build_auth_user u = record {
  id = u.id;
  email = u.email;
  role = u.role;
  display_name = u.display_name;
  is_demo = u.is_demo;
}

abbrev pub seven_days : ℕ
seven_days = 7 * 24 * 60 * 60 * 1000

-- What the transaction of `refresh` answers: two errors leave their writes in place.
pub data RefreshResult : Type 0 where
  reuse no_user : RefreshResult
  refreshed : AuthLoginResult → RefreshResult

module _ (crypto : Crypto) where
  abbrev pub issue_access_token : UserDetailRow → Text
  issue_access_token u = crypto.sign_access_token u.id u.role u.is_demo

  unfoldable pub issue_refresh_token : ℕ → ℕ → Option ℕ → Text → ℕ → Tx Accounts (Unit {0})
  issue_refresh_token user_id session_id replaced_by_id raw now =
      insert_refresh_token user_id session_id (crypto.hash_token raw) (now + seven_days)
        replaced_by_id

  abbrev pub login_result : UserDetailRow → Text → AuthLoginResult
  login_result u raw = record {
    user = build_auth_user u;
    access_token = issue_access_token u;
    refresh_token = raw;
  }

  unfoldable pub issue_auth_tokens :
      UserDetailRow → SessionMetadata → Text → ℕ → Tx Accounts AuthLoginResult
  unfolding issue_refresh_token
  issue_auth_tokens u metadata raw now = do
    session_id ← insert_user_session u.id metadata now
    issue_refresh_token u.id session_id none raw now
    pure (login_result u raw)

  -- A token that is neither revoked nor expired, of a session that is not revoked.
  unfoldable pub rotate : TokenRow → Text → ℕ → Tx Accounts RefreshResult
  unfolding issue_refresh_token
  rotate existing raw now = do
    found ← find_user_by_id existing.user_id
    elim found [
      | none ↦
          (revoke_session existing.session_id now
            >> revoke_session_refresh_tokens existing.session_id now
            >> pure no_user)
      | some user ↦
          (revoke_refresh_token existing.id now
            >> issue_refresh_token user.id existing.session_id (some existing.id) raw now
            >> update_session_last_used_at existing.session_id now
            >> pure (refreshed (login_result user raw)))
    ]

  -- the body of the transaction of `refresh`
  unfoldable pub refresh_transaction : Text → Text → ℕ → Tx Accounts RefreshResult
  refresh_transaction refresh_token raw now = do
    found ← find_refresh_token_by_hash_for_update (crypto.hash_token refresh_token)
    row ← or_throw found invalid_refresh_token
    if is_some row.0.revoked_at
        then (revoke_session row.0.session_id now
            >> revoke_session_refresh_tokens row.0.session_id now
            >> pure reuse)
        else (throw_if (ltb row.0.expires_at now) refresh_token_expired
            >> throw_if (is_some row.1) session_revoked
            >> rotate row.0 raw now)

  abbrev pub refresh_answer : RefreshResult → Result AuthLoginResult
  refresh_answer reuse = err refresh_token_reuse
  refresh_answer no_user = err (unauthorized "Unauthorized")
  refresh_answer (refreshed r) = ok r

  -- `refresh`: what it answers, and the tables afterwards.
  unfoldable pub refresh : Text → Text → ℕ → Accounts → Result AuthLoginResult × Accounts
  refresh refresh_token raw now db = elim (refresh_transaction refresh_token raw now db) [
    | ok (r, db') ↦ (refresh_answer r, db')
    | err e ↦ (err e, db)
  ]

  unfoldable pub logout : Text → ℕ → Tx Accounts (Unit {0})
  logout refresh_token now = do
    found ← find_refresh_token_by_hash_for_update (crypto.hash_token refresh_token)
    elim found [
      | none ↦ pure tt
      | some row ↦ when (not (is_some row.0.revoked_at)) (revoke_refresh_token row.0.id now)
    ]
