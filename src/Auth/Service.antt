-- ===== src/Auth/Service.antt =====
-- The handlers of src/modules/auth/auth.service.ts that spend a mailed token or sign a user in, and `me`,
-- with `validatePending` of auth-utils.ts; those that send a mail are in Mails. Where a handler draws a
-- token for a session, that is `session_raw`.
pub mod Verifications
pub mod SignOut
mod Mails
use commerce_core_api.Common.{
  ℕ, ◌+◌, ◌*◌, Bool, true, false, not, ◌&&◌, ◌||◌, Option, none, some, [], Text, text_eq, is_blank,
  is_some, ltb, if◌then◌else◌,
}
use commerce_core_api.Common.Error.{
  AppError, Tx, Result, ok, err, throw_if, or_throw, when, pure, bad_request, not_found, conflict,
  unauthorized, forbidden, invalid_credentials, internal, ◌>>=◌, ◌>>◌,
}
use commerce_core_api.Database.Account.{
  UserRole, UserStatus, VerificationType, role_is, status_is, UserDetailRow, SessionMetadata,
  VerificationRow, Accounts,
}
use commerce_core_api.Auth.Repo.{
  find_user_by_id, find_user_by_email_or_null, find_user_by_provider, insert_user_with_role,
  update_user_to_admin, update_user_password, update_user_email, update_last_login_at,
  find_pending_verification, insert_pending_verification, mark_pending_verification_used,
  delete_pending_by_email_and_type, delete_pending_by_user_and_type, revoke_all_user_sessions,
  revoke_all_user_refresh_tokens, insert_user_provider_if_not_exists,
}
use commerce_core_api.Auth.Tokens.{
  Crypto, AuthLoginResult, AuthUser, build_auth_user, issue_auth_tokens,
}
unfoldable pub use Mails.*

-- Returns the row that has passed.
unfoldable pub validate_pending : Option VerificationRow → ℕ → Tx Accounts VerificationRow
validate_pending pending now = do
  row ← or_throw pending (not_found "Invalid token")
  throw_if (is_some row.used_at) (bad_request "Token already used")
  throw_if (ltb row.expires_at now) (bad_request "Token expired")
  pure row

-- `!!user?.password_hash`
abbrev pub has_password : Option UserDetailRow → Bool
has_password none = false
has_password (some u) = not (is_blank u.password_hash)

-- `user?.display_name ?? ""`
abbrev pub shown_name : Option UserDetailRow → Text
shown_name none = []
shown_name (some u) = elim u.display_name [ none ↦ [] | some name ↦ name ]

unfoldable pub me : ℕ → Tx Accounts AuthUser
me user_id = do
  found ← find_user_by_id user_id
  user ← or_throw found (unauthorized "Unauthorized")
  pure (build_auth_user user)

-- The user that a verification is for.
unfoldable pub pending_user : VerificationRow → Tx Accounts (Option UserDetailRow)
pending_user pending = elim pending.user_id [
  | none ↦ find_user_by_email_or_null pending.email
  | some id ↦ find_user_by_id id
]

module _ (crypto : Crypto) where
  unfoldable pub verify_email : Text → Text → Option Text → ℕ → Tx Accounts (Unit {0})
  verify_email token password display_name now = do
    found ← find_pending_verification (crypto.hash_token token) VerificationType.register
    pending ← validate_pending found now
    user ←
        insert_user_with_role pending.email (some (crypto.hash_password password)) display_name
          UserRole.user UserStatus.active
    mark_pending_verification_used pending.id now

  -- The account that an invitation makes or upgrades.
  unfoldable pub admin_account :
      Option UserDetailRow → Text → Option Text → Option Text → Tx Accounts UserDetailRow
  admin_account none email password_hash display_name =
      insert_user_with_role email password_hash display_name UserRole.admin UserStatus.active
  admin_account (some user) email password_hash display_name = do
    update_user_to_admin user.id password_hash display_name
    found ← find_user_by_id user.id
    or_throw found (not_found "User not found")

  -- `input.password ? bcrypt.hash(…) : undefined`
  abbrev pub hash_given : Option Text → Option Text
  hash_given none = none
  hash_given (some p) = if is_blank (some p) then none else some (crypto.hash_password p)

  -- The answer of `validateAdminInvite`: the email, the name that is shown, and whether there is a password.
  unfoldable pub validate_admin_invite : Text → ℕ → Tx Accounts (Text × Text × Bool)
  validate_admin_invite token now = do
    found ← find_pending_verification (crypto.hash_token token) VerificationType.invite
    pending ← validate_pending found now
    user ← pending_user pending
    throw_if (holds_user is_admin user) (conflict "User is already an admin")
    pure (pending.email, shown_name user, has_password user)

  -- The answer is the time at which the token expires.
  unfoldable pub check_verification_token : Text → VerificationType → ℕ → Tx Accounts ℕ
  check_verification_token token type now = do
    found ← find_pending_verification (crypto.hash_token token) type
    pending ← validate_pending found now
    pure pending.expires_at

  unfoldable pub accept_admin_invite :
      Text → Option Text → Option Text → SessionMetadata → Text → ℕ → Tx Accounts AuthLoginResult
  accept_admin_invite token password display_name metadata session_raw now = do
    found ← find_pending_verification (crypto.hash_token token) VerificationType.invite
    pending ← validate_pending found now
    user ← pending_user pending
    throw_if (holds_user is_demo_user user) (forbidden "Demo account cannot accept invite")
    throw_if (holds_user is_admin user) (conflict "User is already an admin")
    throw_if (not (has_password user) && is_blank password) (bad_request "Password is required")
    throw_if (not (has_password user) && is_blank display_name)
        (bad_request "Display name is required")
    account ← admin_account user pending.email (hash_given password) display_name
    mark_pending_verification_used pending.id now
    issue_auth_tokens crypto account metadata session_raw now

  unfoldable pub login : Text → Text → SessionMetadata → Text → ℕ → Tx Accounts AuthLoginResult
  login email password metadata session_raw now = do
    found ← find_user_by_email_or_null email
    throw_if (not (has_password found)) invalid_credentials
    user ← or_throw found invalid_credentials
    hash ← or_throw user.password_hash invalid_credentials
    throw_if (not (crypto.compare_password password hash)) invalid_credentials
    update_last_login_at user.id now
    issue_auth_tokens crypto user metadata session_raw now

  unfoldable pub reset_password : Text → Text → ℕ → Tx Accounts (Unit {0})
  reset_password token password now = do
    found ← find_pending_verification (crypto.hash_token token) VerificationType.reset_password
    verification ← or_throw found (bad_request "Invalid or expired token")
    throw_if (is_some verification.used_at) (bad_request "Token already used")
    throw_if (ltb verification.expires_at now) (bad_request "Token expired")
    user_id ← or_throw verification.user_id (bad_request "Invalid token")
    found_user ← find_user_by_id user_id
    user ← or_throw found_user (unauthorized "User not found")
    throw_if user.is_demo (forbidden "Demo account cannot reset password")
    throw_if (not (status_is user.status UserStatus.active)) (forbidden "Account not active")
    update_user_password user.id (crypto.hash_password password)
    mark_pending_verification_used verification.id now
    revoke_all_user_sessions user.id now
    revoke_all_user_refresh_tokens user.id now

  -- The end of the three handlers that sign a user in anew: every session ends, and one begins.
  unfoldable pub renew_sessions : ℕ → SessionMetadata → Text → ℕ → Tx Accounts AuthLoginResult
  renew_sessions user_id metadata session_raw now = do
    revoke_all_user_sessions user_id now
    revoke_all_user_refresh_tokens user_id now
    fresh ← find_user_by_id user_id
    user ← or_throw fresh internal
    issue_auth_tokens crypto user metadata session_raw now

  unfoldable pub change_password :
      ℕ → Text → Text → SessionMetadata → Text → ℕ → Tx Accounts AuthLoginResult
  change_password user_id current_password new_password metadata session_raw now = do
    found ← find_user_by_id user_id
    user ← or_throw found (unauthorized "Unauthorized")
    throw_if user.is_demo (forbidden "Demo account cannot change password")
    throw_if (is_blank user.password_hash)
        (bad_request "Password login is not enabled for this account")
    hash ←
        or_throw user.password_hash (bad_request "Password login is not enabled for this account")
    throw_if (not (crypto.compare_password current_password hash))
        (unauthorized "Current password is incorrect")
    throw_if (crypto.compare_password new_password hash)
        (bad_request "New password must be different from current password")
    update_user_password user.id (crypto.hash_password new_password)
    renew_sessions user.id metadata session_raw now

  unfoldable pub set_password : ℕ → Text → SessionMetadata → Text → ℕ → Tx Accounts AuthLoginResult
  set_password user_id password metadata session_raw now = do
    found ← find_user_by_id user_id
    user ← or_throw found (unauthorized "Unauthorized")
    throw_if user.is_demo (forbidden "Demo account cannot set password")
    throw_if (not (is_blank user.password_hash)) (bad_request "Password already set")
    update_user_password user.id (crypto.hash_password password)
    renew_sessions user.id metadata session_raw now

  unfoldable pub confirm_email_change :
      Text → SessionMetadata → Text → ℕ → Tx Accounts AuthLoginResult
  confirm_email_change token metadata session_raw now = do
    found ← find_pending_verification (crypto.hash_token token) VerificationType.change_email
    pending ← or_throw found (bad_request "Invalid or expired token")
    throw_if (is_some pending.used_at) (bad_request "Token already used")
    throw_if (ltb pending.expires_at now) (bad_request "Token expired")
    user_id ← or_throw pending.user_id (bad_request "Invalid token")
    throw_if (is_blank (some pending.email)) (bad_request "Invalid token")
    found_user ← find_user_by_id user_id
    user ← or_throw found_user (unauthorized "Unauthorized")
    throw_if user.is_demo (forbidden "Demo account cannot confirm email change")
    update_user_email user.id pending.email
    mark_pending_verification_used pending.id now
    renew_sessions user.id metadata session_raw now

  -- The provider's answer: its id, the email, its verification, the name and the picture.
  unfoldable pub google_account : Text → Text → Option Text → Tx Accounts UserDetailRow
  google_account sub email name = do
    linked ← find_user_by_provider sub
    elim linked [
      | some user ↦ pure user
      | none ↦
          (find_user_by_email_or_null email >>= λ found. elim found [
            | some user ↦ pure user
            | none ↦ insert_user_with_role email none name UserRole.user UserStatus.active
          ])
    ]

  unfoldable pub google_login :
      Bool
      → Text
      → Text
      → Text
      → Option Text
      → Option Text
      → SessionMetadata
      → Text
      → ℕ
      → Tx Accounts AuthLoginResult
  google_login email_verified sub email lower_email name picture metadata session_raw now = do
    throw_if (not email_verified) (unauthorized "Google email not verified")
    user ← google_account sub lower_email name
    throw_if user.is_demo (forbidden "Demo account cannot be used for login")
    insert_user_provider_if_not_exists user.id sub (some email) name picture
    issue_auth_tokens crypto user metadata session_raw now
