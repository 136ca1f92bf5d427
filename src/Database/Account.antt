-- ===== src/Database/Account.antt =====
-- The rows of users, user_providers, user_sessions, refresh_tokens and pending_verifications, and the
-- tables that src/modules/auth works on: src/modules/auth/auth.repo.types.ts, auth.types.ts and
-- src/shared/user/user.types.ts. Times are milliseconds.
use commerce_core_api.Common.{ℕ, ◌==◌, Bool, Option, List, Text}

pub data UserRole : Type 0 where
  user admin super : UserRole

pub data UserStatus : Type 0 where
  active suspended : UserStatus

pub data VerificationType : Type 0 where
  register reset_password invite change_email : VerificationType

-- `===` on the words
abbrev pub role_tag : UserRole → ℕ
role_tag UserRole.user = 0
role_tag UserRole.admin = 1
role_tag UserRole.super = 2

abbrev pub status_tag : UserStatus → ℕ
status_tag UserStatus.active = 0
status_tag UserStatus.suspended = 1

abbrev pub type_tag : VerificationType → ℕ
type_tag VerificationType.register = 0
type_tag VerificationType.reset_password = 1
type_tag VerificationType.invite = 2
type_tag VerificationType.change_email = 3

abbrev pub role_is : UserRole → UserRole → Bool
role_is a b = role_tag a == role_tag b

abbrev pub status_is : UserStatus → UserStatus → Bool
status_is a b = status_tag a == status_tag b

abbrev pub type_is : VerificationType → VerificationType → Bool
type_is a b = type_tag a == type_tag b

pub record UserDetailRow : Type 0 where
  pub id : ℕ
  pub email : Text
  pub password_hash : Option Text
  pub role : UserRole
  pub status : UserStatus
  pub display_name : Option Text
  pub is_demo : Bool
  pub last_login_at : Option ℕ

-- The provider is always GOOGLE here.
pub record UserProviderRow : Type 0 where
  pub user_id : ℕ
  pub provider_user_id : Text
  pub provider_email : Option Text
  pub provider_display_name : Option Text
  pub provider_avatar_url : Option Text

-- `SessionMetadata`
pub record SessionMetadata : Type 0 where
  pub client : Text
  pub user_agent : Option Text
  pub ip_address : Option Text

pub record UserSessionRow : Type 0 where
  pub id : ℕ
  pub user_id : ℕ
  pub metadata : SessionMetadata
  pub last_used_at : ℕ
  pub revoked_at : Option ℕ

-- a row of refresh_tokens
pub record TokenRow : Type 0 where
  pub id : ℕ
  pub user_id : ℕ
  pub session_id : ℕ
  pub token_hash : Text
  pub expires_at : ℕ
  pub revoked_at : Option ℕ
  pub replaced_by_id : Option ℕ

-- a row of pending_verifications, with `PendingVerificationRow`
pub record VerificationRow : Type 0 where
  pub id : ℕ
  pub user_id : Option ℕ
  pub email : Text
  pub token_hash : Text
  pub type : VerificationType
  pub expires_at : ℕ
  pub used_at : Option ℕ

pub record Accounts : Type 0 where
  pub users : List UserDetailRow
  pub providers : List UserProviderRow
  pub sessions : List UserSessionRow
  pub tokens : List TokenRow
  pub verifications : List VerificationRow
  pub next_user_id : ℕ
  pub next_session_id : ℕ
  pub next_token_id : ℕ
  pub next_verification_id : ℕ
