-- ===== src/Auth/Service/Mails.antt =====
-- The handlers of src/modules/auth/auth.service.ts that send a mail with a token: invitations,
-- registrations, password resets and changes of the email. `normalize` is `trim().toLowerCase()`, and
-- `raw` is what `generateRefreshToken` draws. The mail and its URL are left out: each handler answers the
-- raw token that the URL carries.
use commerce_core_api.Common.{
  ℕ, ◌+◌, ◌*◌, Bool, false, ◌||◌, Option, none, some, Text, text_eq, is_some, if◌then◌else◌,
}
use commerce_core_api.Common.Error.{
  Tx, throw_if, or_throw, pure, bad_request, conflict, unauthorized, forbidden, ◌>>=◌, ◌>>◌,
}
use commerce_core_api.Database.Account.{
  UserRole, VerificationType, role_is, UserDetailRow, Accounts,
}
use commerce_core_api.Auth.Repo.{
  find_user_by_id, find_user_by_email_or_null, insert_pending_verification,
  delete_pending_by_email_and_type, delete_pending_by_user_and_type,
}
use commerce_core_api.Auth.Tokens.{Crypto}

abbrev pub fifteen_minutes : ℕ
fifteen_minutes = 15 * 60 * 1000

abbrev pub holds_user : (UserDetailRow → Bool) → Option UserDetailRow → Bool
holds_user p none = false
holds_user p (some u) = p u

abbrev pub is_admin : UserDetailRow → Bool
is_admin u = role_is u.role UserRole.admin || role_is u.role UserRole.super

abbrev pub is_demo_user : UserDetailRow → Bool
is_demo_user u = u.is_demo

abbrev pub id_of : Option UserDetailRow → Option ℕ
id_of none = none
id_of (some u) = some u.id

module _ (crypto : Crypto) (normalize : Text → Text) where
  -- The caller's `isDemo` is the first argument.
  unfoldable pub invite_admin : Bool → Text → Text → ℕ → Tx Accounts Text
  invite_admin caller_is_demo email raw now = do
    throw_if caller_is_demo (forbidden "Demo account cannot invite admin")
    existing ← find_user_by_email_or_null (normalize email)
    throw_if (holds_user is_demo_user existing) (forbidden "Demo account cannot be invited")
    throw_if (holds_user is_admin existing) (conflict "User is already an admin")
    delete_pending_by_email_and_type (normalize email) VerificationType.invite
    insert_pending_verification (normalize email) (crypto.hash_token raw) VerificationType.invite
        (now + fifteen_minutes) (id_of existing)
    pure raw

  unfoldable pub register : Text → Text → ℕ → Tx Accounts Text
  register email raw now = do
    existing ← find_user_by_email_or_null (normalize email)
    throw_if (is_some existing) (conflict "Email already registered")
    delete_pending_by_email_and_type (normalize email) VerificationType.register
    insert_pending_verification (normalize email) (crypto.hash_token raw) VerificationType.register
        (now + fifteen_minutes) none
    pure raw

  -- `none` where no mail is sent
  unfoldable pub request_password_reset : Text → Text → ℕ → Tx Accounts (Option Text)
  request_password_reset email raw now = do
    found ← find_user_by_email_or_null (normalize email)
    elim found [
      | none ↦ pure none
      | some user ↦
          if user.is_demo
          then pure none
          else (delete_pending_by_email_and_type (normalize email) VerificationType.reset_password
              >> insert_pending_verification (normalize email) (crypto.hash_token raw)
                  VerificationType.reset_password (now + fifteen_minutes) (some user.id)
              >> pure (some raw))
    ]

  unfoldable pub change_email : ℕ → Text → Text → ℕ → Tx Accounts Text
  change_email user_id new_email raw now = do
    found ← find_user_by_id user_id
    user ← or_throw found (unauthorized "Unauthorized")
    throw_if user.is_demo (forbidden "Demo account cannot change email")
    throw_if (text_eq user.email (normalize new_email))
        (bad_request "Email is already your current email")
    existing ← find_user_by_email_or_null (normalize new_email)
    throw_if (is_some existing) (conflict "Email already registered")
    delete_pending_by_user_and_type user_id VerificationType.change_email
    insert_pending_verification (normalize new_email) (crypto.hash_token raw)
        VerificationType.change_email (now + fifteen_minutes) (some user_id)
    pure raw
