-- ===== src/Examples/Accounts.antt =====
-- Sign-in, refresh and the spending of mailed tokens on a small table of accounts.
use commerce_core_api.Common.{
  ℕ, ◌≡◌, refl, true, false, Option, none, some, [], ◌∷◌, text_eq, codes,
}
use commerce_core_api.Common.Error.{Commits, err, committed, is_committed, refresh_token_reuse}
use commerce_core_api.Database.Account.{
  UserRole, UserStatus, VerificationType, UserDetailRow, SessionMetadata, UserSessionRow, TokenRow,
  VerificationRow, Accounts,
}
use commerce_core_api.Auth.Tokens.{
  Crypto, refresh, refresh_transaction, logout, issue_auth_tokens, rotate, issue_refresh_token,
}
use commerce_core_api.Auth.Tokens.Later.{
  Later, at_once, after_login, after_refresh, after_logout, refresh_once, logout_then_refresh,
}
use commerce_core_api.Auth.Repo.{
  find_refresh_token_by_hash_for_update, find_user_by_id, revoke_refresh_token,
  insert_refresh_token, update_session_last_used_at,
}
use commerce_core_api.Auth.Tokens.Rotation.{IsClosed, refresh-IsClosed}
use commerce_core_api.Auth.Service.{
  verify_email, reset_password, confirm_email_change, accept_admin_invite, login,
}
use commerce_core_api.Auth.Service.Verifications.{Refused, spend_once}
use commerce_core_api.Auth.Service.SignOut.{reset_then_login}

-- Hashes that are the texts themselves.
abbrev plain : Crypto
plain = record {
  hash_token = λ t. t;
  hash_password = λ t. t;
  compare_password = text_eq;
  sign_access_token = λ id role is_demo. [];
}

abbrev ann : UserDetailRow
ann = record {
  id = 1;
  email = codes "a@b.c";
  password_hash = some (codes "old");
  role = UserRole.user;
  status = UserStatus.active;
  display_name = none;
  is_demo = false;
  last_login_at = none;
}

abbrev browser : SessionMetadata
browser = record { client = codes "web"; user_agent = none; ip_address = none }

abbrev ann_session : UserSessionRow
ann_session = record {
  id = 3;
  user_id = 1;
  metadata = browser;
  last_used_at = 10;
  revoked_at = none;
}

abbrev token : Option ℕ → TokenRow
token revoked_at = record {
  id = 7;
  user_id = 1;
  session_id = 3;
  token_hash = codes "tok";
  expires_at = 1000;
  revoked_at = revoked_at;
  replaced_by_id = none;
}

abbrev mail : ℕ → Option ℕ → VerificationType → VerificationRow
mail id user_id type = record {
  id = id;
  user_id = user_id;
  email = codes "n@b.c";
  token_hash = codes "mail";
  type = type;
  expires_at = 1000;
  used_at = none;
}

abbrev accounts : Option ℕ → Accounts
accounts revoked_at = record {
  users = ann ∷ [];
  providers = [];
  sessions = ann_session ∷ [];
  tokens = token revoked_at ∷ [];
  verifications =
      mail 8 (some 1) VerificationType.reset_password ∷ mail 9 none VerificationType.register ∷ [];
  next_user_id = 2;
  next_session_id = 4;
  next_token_id = 8;
  next_verification_id = 10;
}

-- A refresh of the token, then the log-in of a session and the log-out of the token.
abbrev after : Accounts
after = committed (logout plain (codes "tok") 57) (
    committed
      (issue_auth_tokens plain ann
        (record { client = codes "web"; user_agent = none; ip_address = none }) (codes "r3") 55)
      (refresh plain (codes "tok") (codes "r1") 50 (accounts none)).1)

after-Later : Later plain (refresh plain (codes "tok") (codes "r1") 50 (accounts none)).1 after
after-Later =
    after_logout
      (after_login at_once ann
        (record { client = codes "web"; user_agent = none; ip_address = none }) (codes "r3") 55)
      (codes "tok") 57

first_commits :
    is_committed (refresh_transaction plain (codes "tok") (codes "r1") 50 (accounts none)) ≡ true
unfolding refresh_transaction find_refresh_token_by_hash_for_update rotate find_user_by_id
    revoke_refresh_token issue_refresh_token insert_refresh_token update_session_last_used_at
first_commits = refl

refresh_once_example :
    (refresh plain (codes "tok") (codes "r2") 60 after).0 ≡ err refresh_token_reuse
refresh_once_example =
    refresh_once plain (codes "tok") (codes "r1") 50 60 (accounts none) after (codes "r2")
      first_commits after-Later

logout_then_refresh_example :
    (refresh plain
      (codes "tok")
      (codes "r2")
      60
      (refresh plain
        (codes "tok")
        (codes "r1")
        55
        (committed (logout plain (codes "tok") 50) (accounts none))).1).0
    ≡ err refresh_token_reuse
logout_then_refresh_example =
    logout_then_refresh plain (codes "tok") (codes "r2") 50 60 (accounts none)
      (refresh plain (codes "tok") (codes "r1") 55
        (committed (logout plain (codes "tok") 50) (accounts none))).1
      (token none, none) refl (after_refresh at_once (codes "tok") (codes "r1") 55)

refresh-IsClosed_example :
    IsClosed plain 3 (refresh plain (codes "tok") (codes "r1") 50 (accounts (some 40))).1
refresh-IsClosed_example =
    refresh-IsClosed plain 50 (accounts (some 40)) (codes "tok") (codes "r1")
      (token (some 40), none) refl refl

spend_once_example :
    Commits
      (Refused (verify_email plain (codes "mail") (codes "pw") none 60))
      (verify_email plain (codes "mail") (codes "pw") none 50 (accounts none))
    × Commits
        (Refused (reset_password plain (codes "mail") (codes "pw") 60))
        (reset_password plain (codes "mail") (codes "pw") 50 (accounts none))
    × Commits
        (Refused (confirm_email_change plain (codes "mail") browser (codes "r2") 60))
        (confirm_email_change plain (codes "mail") browser (codes "r1") 50 (accounts none))
    × Commits
        (Refused (accept_admin_invite plain (codes "mail") none none browser (codes "r2") 60))
        (accept_admin_invite plain (codes "mail") none none browser (codes "r1") 50 (accounts none))
spend_once_example =
    spend_once plain (codes "mail") (codes "pw") none none browser (codes "r1") 50 (accounts none)
      (codes "pw") none none browser (codes "r2") 60

reset_then_login_example :
    Commits
      (λ d.
        is_committed (login plain (codes "a@b.c") (codes "new") browser (codes "r1") 60 d) ≡ true)
      (reset_password plain (codes "mail") (codes "new") 50 (accounts none))
reset_then_login_example =
    reset_then_login plain (codes "mail") (codes "new") (codes "r1") browser 50 60 1 (accounts none)
      (mail 8 (some 1) VerificationType.reset_password) ann refl refl refl refl refl refl refl
