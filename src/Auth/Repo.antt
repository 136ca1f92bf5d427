-- ===== src/Auth/Repo.antt =====
-- `class AuthRepo` of src/modules/auth/auth.repo.ts: each query as a transaction step, with the unique
-- indexes on users.email, refresh_tokens.token_hash and pending_verifications.token_hash. The argument
-- `now` is `NOW()`.
mod Sessions
use commerce_core_api.Common.{
  ℕ, suc, Bool, false, not, ◌&&◌, Option, none, some, [], ◌∷◌, ◌++◌, Text, text_eq, is_some, ◌==◌,
  if◌then◌else◌,
}
use commerce_core_api.Common.Error.{Tx, gets, modify, throw_if, internal, pure, ◌>>=◌, ◌>>◌}
use commerce_core_api.Common.Table.{find, find_by, update, matches, select}
use commerce_core_api.Database.Account.{
  UserRole, UserStatus, VerificationType, type_is, UserDetailRow, UserProviderRow, SessionMetadata,
  UserSessionRow, TokenRow, VerificationRow, Accounts,
}
unfoldable pub use Sessions.*

abbrev pub user_key : UserDetailRow → ℕ
user_key u = u.id

unfoldable pub find_user_by_id : ℕ → Tx Accounts (Option UserDetailRow)
find_user_by_id user_id = gets λ db. find user_key user_id db.users

abbrev pub has_email : Text → UserDetailRow → Bool
has_email email u = text_eq u.email email

unfoldable pub find_user_by_email_or_null : Text → Tx Accounts (Option UserDetailRow)
find_user_by_email_or_null email = gets λ db. find_by (has_email email) db.users

abbrev pub is_provider : Text → UserProviderRow → Bool
is_provider sub p = text_eq p.provider_user_id sub

-- `JOIN users u ON u.id = p.user_id`
abbrev pub provider_user : Accounts → Option UserProviderRow → Option UserDetailRow
provider_user db none = none
provider_user db (some p) = find user_key p.user_id db.users

unfoldable pub find_user_by_provider : Text → Tx Accounts (Option UserDetailRow)
find_user_by_provider sub = gets λ db. provider_user db (find_by (is_provider sub) db.providers)

abbrev pub update_users :
    (UserDetailRow → Bool) → (UserDetailRow → UserDetailRow) → Accounts → Accounts
update_users p f db = record db { users = update p f db.users }

abbrev pub has_user_id : ℕ → UserDetailRow → Bool
has_user_id user_id u = u.id == user_id

-- Returns the row; a taken email violates the unique index.
unfoldable pub insert_user_with_role :
    Text → Option Text → Option Text → UserRole → UserStatus → Tx Accounts UserDetailRow
insert_user_with_role email password_hash display_name role status = do
  taken ← gets λ db. find_by (has_email email) db.users
  throw_if (is_some taken) internal
  id ← gets λ db. db.next_user_id
  let row : UserDetailRow = record {
    id = id;
    email = email;
    password_hash = password_hash;
    role = role;
    status = status;
    display_name = display_name;
    is_demo = false;
    last_login_at = none;
  }
  modify λ db. record db { users = db.users ++ (row ∷ []); next_user_id = suc id }
  pure row

-- `COALESCE(a, b)`
abbrev pub coalesce : Option Text → Option Text → Option Text
coalesce none b = b
coalesce (some a) b = some a

abbrev pub set_admin : Option Text → Option Text → UserDetailRow → UserDetailRow
set_admin password_hash display_name u = record u {
  role = UserRole.admin;
  password_hash = coalesce u.password_hash password_hash;
  display_name = coalesce u.display_name display_name;
}

unfoldable pub update_user_to_admin : ℕ → Option Text → Option Text → Tx Accounts (Unit {0})
update_user_to_admin user_id password_hash display_name =
    modify (update_users (has_user_id user_id) (set_admin password_hash display_name))

abbrev pub set_user_password : Text → UserDetailRow → UserDetailRow
set_user_password password_hash u = record u { password_hash = some password_hash }

unfoldable pub update_user_password : ℕ → Text → Tx Accounts (Unit {0})
update_user_password user_id password_hash =
    modify (update_users (has_user_id user_id) (set_user_password password_hash))

abbrev pub set_user_email : Text → UserDetailRow → UserDetailRow
set_user_email email u = record u { email = email }

-- The row itself may have the email already.
abbrev pub is_taken : ℕ → Text → UserDetailRow → Bool
is_taken user_id email u = text_eq u.email email && not (u.id == user_id)

unfoldable pub update_user_email : ℕ → Text → Tx Accounts (Unit {0})
update_user_email user_id email = do
  taken ← gets λ db. matches (is_taken user_id email) db.users
  exists ← gets λ db. matches (has_user_id user_id) db.users
  throw_if (taken && exists) internal
  modify (update_users (has_user_id user_id) (set_user_email email))

abbrev pub set_last_login : ℕ → UserDetailRow → UserDetailRow
set_last_login now u = record u { last_login_at = some now }

unfoldable pub update_last_login_at : ℕ → ℕ → Tx Accounts (Unit {0})
update_last_login_at user_id now = modify (update_users (has_user_id user_id) (set_last_login now))

abbrev pub has_verification : Text → VerificationType → VerificationRow → Bool
has_verification token_hash type v = text_eq v.token_hash token_hash && type_is v.type type

-- `checkPendingVerification` and `findPendingVerification`, which adds a lock
unfoldable pub find_pending_verification :
    Text → VerificationType → Tx Accounts (Option VerificationRow)
find_pending_verification token_hash type =
    gets λ db. find_by (has_verification token_hash type) db.verifications

unfoldable pub insert_pending_verification :
    Text → Text → VerificationType → ℕ → Option ℕ → Tx Accounts (Unit {0})
insert_pending_verification email token_hash type expires_at user_id = do
  taken ← gets λ db. matches (λ v. text_eq v.token_hash token_hash) db.verifications
  throw_if taken internal
  modify λ db. record db {
    verifications =
        db.verifications
        ++ (record {
          id = db.next_verification_id;
          user_id = user_id;
          email = email;
          token_hash = token_hash;
          type = type;
          expires_at = expires_at;
          used_at = none;
        }
            ∷ []);
    next_verification_id = suc db.next_verification_id;
  }

abbrev pub set_used : ℕ → VerificationRow → VerificationRow
set_used now v = record v { used_at = some now }

abbrev pub has_verification_id : ℕ → VerificationRow → Bool
has_verification_id id v = v.id == id

unfoldable pub mark_pending_verification_used : ℕ → ℕ → Tx Accounts (Unit {0})
mark_pending_verification_used id now = modify λ db. record db {
  verifications = update (has_verification_id id) (set_used now) db.verifications;
}

abbrev pub is_pending_of : Text → VerificationType → VerificationRow → Bool
is_pending_of email type v = text_eq v.email email && type_is v.type type && not (is_some v.used_at)

unfoldable pub delete_pending_by_email_and_type : Text → VerificationType → Tx Accounts (Unit {0})
delete_pending_by_email_and_type email type = modify λ db. record db {
  verifications = select (λ v. not (is_pending_of email type v)) db.verifications;
}

abbrev pub is_user : ℕ → Option ℕ → Bool
is_user user_id none = false
is_user user_id (some u) = u == user_id

abbrev pub is_pending_by : ℕ → VerificationType → VerificationRow → Bool
is_pending_by user_id type v =
    is_user user_id v.user_id && type_is v.type type && not (is_some v.used_at)

unfoldable pub delete_pending_by_user_and_type : ℕ → VerificationType → Tx Accounts (Unit {0})
delete_pending_by_user_and_type user_id type = modify λ db. record db {
  verifications = select (λ v. not (is_pending_by user_id type v)) db.verifications;
}

abbrev pub new_provider : ℕ → Text → Option Text → Option Text → Option Text → UserProviderRow
new_provider user_id sub email name picture = record {
  user_id = user_id;
  provider_user_id = sub;
  provider_email = email;
  provider_display_name = name;
  provider_avatar_url = picture;
}

abbrev pub set_provider :
    Option Text → Option Text → Option Text → UserProviderRow → UserProviderRow
set_provider email name picture p = record p {
  provider_email = email;
  provider_display_name = name;
  provider_avatar_url = picture;
}

-- `ON CONFLICT … DO UPDATE … WHERE` one of the three differs: writing equal values is no change. A new row
-- for a user that has one for this provider already meets the unique index on user_id and provider.
unfoldable pub insert_user_provider_if_not_exists :
    ℕ → Text → Option Text → Option Text → Option Text → Tx Accounts (Unit {0})
insert_user_provider_if_not_exists user_id sub email name picture = do
  known ← gets λ db. matches (is_provider sub) db.providers
  linked ← gets λ db. matches (λ p. p.user_id == user_id) db.providers
  throw_if (not known && linked) internal
  modify λ db. record db {
    providers =
        if known
        then update (is_provider sub) (set_provider email name picture) db.providers
        else db.providers ++ (new_provider user_id sub email name picture ∷ []);
  }
