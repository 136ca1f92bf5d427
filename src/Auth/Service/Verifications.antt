-- ===== src/Auth/Service/Verifications.antt =====
-- The verifications that `verifyEmail`, `acceptAdminInvite`, `resetPassword` and `confirmEmailChange`
-- spend.
use commerce_core_api.Common.{
  ℕ, ◌≡◌, refl, Bool, true, Option, none, some, Text, arith, is_some, Option-cases, inl, inr,
  ==_refl,
}
use commerce_core_api.Common.Error.{
  Tx, err, Commits, Commits-map, Commits-bind, bad_request, ◌>>=◌, ◌>>◌,
}
use commerce_core_api.Common.Table.{find, find_by, holds, find_by-update}
use commerce_core_api.Database.Account.{
  VerificationType, UserDetailRow, SessionMetadata, VerificationRow, Accounts,
}
use commerce_core_api.Auth.Repo.{
  has_email, has_verification, set_used, has_verification_id, find_pending_verification,
  mark_pending_verification_used, user_key, insert_user_with_role, find_user_by_id,
  update_user_email, update_user_password, revoke_all_user_sessions, revoke_all_user_refresh_tokens,
  insert_user_session, insert_refresh_token, update_user_to_admin, find_user_by_email_or_null,
  update_users, has_user_id, set_user_email,
}
use commerce_core_api.Auth.Tokens.{Crypto, issue_auth_tokens}
use commerce_core_api.Auth.Service.{
  validate_pending, verify_email, accept_admin_invite, reset_password, confirm_email_change,
  renew_sessions, admin_account, pending_user, hash_given,
}

abbrev pub is_used : VerificationRow → Bool
is_used v = is_some v.used_at

-- The verification of a hash and a type is there, and used.
abbrev pub IsUsed : Text → VerificationType → Accounts → Type 0
IsUsed hash type db = holds is_used (find_by (has_verification hash type) db.verifications) ≡ true

abbrev id_or_zero : Option ℕ → ℕ
id_or_zero none = 0
id_or_zero (some id) = id

abbrev SameVerifications : Accounts → Accounts → Type 0
SameVerifications db d = d.verifications ≡ db.verifications

module _ (hash : Text) (type : VerificationType) (v : VerificationRow) (now : ℕ)
    (db : Accounts) where
  mark-IsUsed :
      find_by (has_verification hash type) db.verifications ≡ some v
      → Commits (IsUsed hash type) (mark_pending_verification_used v.id now db)
  unfolding mark_pending_verification_used
  mark-IsUsed e = ground (
    arith,
    find_by-update (has_verification hash type) (has_verification_id v.id) (set_used now)
        db.verifications (λ _. refl),
    ==_refl v.id,
  )

abbrev pub Refused : {A : Type 0} → Tx Accounts A → Accounts → Type 0
Refused m d = m d ≡ err (bad_request "Token already used")

module _ (crypto : Crypto) where
  issue_frame :
      (u : UserDetailRow) (metadata : SessionMetadata) (raw : Text) (now : ℕ) (db : Accounts)
      → Commits (SameVerifications db) (issue_auth_tokens crypto u metadata raw now db)
  unfolding issue_auth_tokens insert_user_session insert_refresh_token
  issue_frame u metadata raw now db = ground arith

  renew_frame :
      (user_id : ℕ) (metadata : SessionMetadata) (raw : Text) (now : ℕ) (db : Accounts)
      → Commits (SameVerifications db) (renew_sessions crypto user_id metadata raw now db)
  unfolding renew_sessions revoke_all_user_sessions revoke_all_user_refresh_tokens find_user_by_id
      issue_auth_tokens insert_user_session insert_refresh_token
  renew_frame user_id metadata raw now db = ground arith

  admin_account_frame :
      (user : Option UserDetailRow) (email : Text) (password_hash display_name : Option Text)
      (db : Accounts)
      → Commits
          (SameVerifications db)
          (admin_account crypto user email password_hash display_name db)
  unfolding admin_account insert_user_with_role update_user_to_admin find_user_by_id
  admin_account_frame none email password_hash display_name db = ground arith
  admin_account_frame (some u) email password_hash display_name db = ground arith

  -- Marking, and then a step that leaves the verifications alone.
  mark_then :
      {A : Type 0} (hash : Text) (type : VerificationType) (v : VerificationRow) (now : ℕ)
      (db : Accounts) (m : Tx Accounts A)
      → find_by (has_verification hash type) db.verifications ≡ some v
      → ((d : Accounts) → Commits (SameVerifications d) (m d))
      → Commits (IsUsed hash type) ((mark_pending_verification_used v.id now >> m) db)
  mark_then hash type v now db m e frame =
      Commits-bind (IsUsed hash type) (IsUsed hash type) (mark_pending_verification_used v.id now)
        (λ _. m) db (mark-IsUsed hash type v now db e)
        (λ u d at used.
          Commits-map (SameVerifications d) (IsUsed hash type) (m d) (λ d' same. rw same used)
            (frame d))

  verify_email-IsUsed :
      (token password : Text) (display_name : Option Text) (now : ℕ) (db : Accounts)
      → Commits
          (IsUsed (crypto.hash_token token) VerificationType.register)
          (verify_email crypto token password display_name now db)
  unfolding verify_email find_pending_verification validate_pending insert_user_with_role
      mark_pending_verification_used
  verify_email-IsUsed token password display_name now db =
      let p = has_verification (crypto.hash_token token) VerificationType.register in
      elim (Option-cases (find_by p db.verifications)) [
        | inl e ↦ rw e tt
        | inr (v, e) ↦ ground (
          arith,
          find_by-update p (has_verification_id v.id) (set_used now) db.verifications (λ _. refl),
          ==_refl v.id,
        )
      ]

  reset_password-IsUsed :
      (token password : Text) (now : ℕ) (db : Accounts)
      → Commits
          (IsUsed (crypto.hash_token token) VerificationType.reset_password)
          (reset_password crypto token password now db)
  unfolding reset_password find_pending_verification find_user_by_id update_user_password
      mark_pending_verification_used revoke_all_user_sessions revoke_all_user_refresh_tokens
  reset_password-IsUsed token password now db =
      let p = has_verification (crypto.hash_token token) VerificationType.reset_password in
      elim (Option-cases (find_by p db.verifications)) [
        | inl e ↦ rw e tt
        | inr (v, e) ↦ ground (
          arith,
          find_by-update p (has_verification_id v.id) (set_used now) db.verifications (λ _. refl),
          ==_refl v.id,
        )
      ]

  confirm_email_change-IsUsed :
      (token : Text) (metadata : SessionMetadata) (raw : Text) (now : ℕ) (db : Accounts)
      → Commits
          (IsUsed (crypto.hash_token token) VerificationType.change_email)
          (confirm_email_change crypto token metadata raw now db)
  unfolding confirm_email_change find_pending_verification find_user_by_id update_user_email
  confirm_email_change-IsUsed token metadata raw now db =
      let hash = crypto.hash_token token in
      let p = has_verification hash VerificationType.change_email in
      elim (Option-cases (find_by p db.verifications)) [
        | inl e ↦ rw e tt
        | inr (v, e) ↦
            let last = λ (u : UserDetailRow).
              mark_then hash VerificationType.change_email v now
                (update_users (has_user_id u.id) (set_user_email v.email) db)
                (renew_sessions crypto u.id metadata raw now) e
                (λ d. renew_frame u.id metadata raw now d) in
            grind (arith, last)
      ]

  -- What follows the lookup of the user.
  accepted :
      (token : Text) (password display_name : Option Text) (metadata : SessionMetadata) (raw : Text)
      (now : ℕ) (db : Accounts) (v : VerificationRow) (user : Option UserDetailRow)
      → find_by
          (has_verification (crypto.hash_token token) VerificationType.invite)
          db.verifications
        ≡ some v
      → Commits (IsUsed (crypto.hash_token token) VerificationType.invite) (
          (admin_account crypto user v.email (hash_given crypto password) display_name
              >>= λ account.
                  mark_pending_verification_used v.id now
                  >> issue_auth_tokens crypto account metadata raw now)
            db)
  accepted token password display_name metadata raw now db v user e =
      let hash = crypto.hash_token token in
      Commits-bind (SameVerifications db) (IsUsed hash VerificationType.invite)
        (admin_account crypto user v.email (hash_given crypto password) display_name)
        (λ account.
          mark_pending_verification_used v.id now
          >> issue_auth_tokens crypto account metadata raw now)
        db (admin_account_frame user v.email (hash_given crypto password) display_name db)
        (λ account d at same.
          mark_then hash VerificationType.invite v now d
            (issue_auth_tokens crypto account metadata raw now) (rw same e)
            (λ d'. issue_frame account metadata raw now d'))

  accept_admin_invite-IsUsed :
      (token : Text) (password display_name : Option Text) (metadata : SessionMetadata) (raw : Text)
      (now : ℕ) (db : Accounts)
      → Commits
          (IsUsed (crypto.hash_token token) VerificationType.invite)
          (accept_admin_invite crypto token password display_name metadata raw now db)
  unfolding accept_admin_invite find_pending_verification validate_pending pending_user
      find_user_by_email_or_null find_user_by_id
  accept_admin_invite-IsUsed token password display_name metadata raw now db =
      let hash = crypto.hash_token token in
      let p = has_verification hash VerificationType.invite in
      elim (Option-cases (find_by p db.verifications)) [
        | inl e ↦ rw e tt
        | inr (v, e) ↦ ground (
          arith,
          accepted token password display_name metadata raw now db v
              (find user_key (id_or_zero v.user_id) db.users) e,
          accepted token password display_name metadata raw now db v
              (find_by (has_email v.email) db.users) e,
        )
      ]

  register-Refused :
      (token password : Text) (display_name : Option Text) (now : ℕ) (db : Accounts)
      → IsUsed (crypto.hash_token token) VerificationType.register db
      → Refused (verify_email crypto token password display_name now) db
  unfolding verify_email find_pending_verification validate_pending
  register-Refused token password display_name now db h = ground arith

  reset-Refused :
      (token password : Text) (now : ℕ) (db : Accounts)
      → IsUsed (crypto.hash_token token) VerificationType.reset_password db
      → Refused (reset_password crypto token password now) db
  unfolding reset_password find_pending_verification
  reset-Refused token password now db h = ground arith

  change-Refused :
      (token : Text) (metadata : SessionMetadata) (raw : Text) (now : ℕ) (db : Accounts)
      → IsUsed (crypto.hash_token token) VerificationType.change_email db
      → Refused (confirm_email_change crypto token metadata raw now) db
  unfolding confirm_email_change find_pending_verification
  change-Refused token metadata raw now db h = ground arith

  invite-Refused :
      (token : Text) (password display_name : Option Text) (metadata : SessionMetadata) (raw : Text)
      (now : ℕ) (db : Accounts)
      → IsUsed (crypto.hash_token token) VerificationType.invite db
      → Refused (accept_admin_invite crypto token password display_name metadata raw now) db
  unfolding accept_admin_invite find_pending_verification validate_pending
  invite-Refused token password display_name metadata raw now db h = ground arith

  -- A token of a mail is good for one use: if one of the four handlers that spend such a token commits,
  -- the same handler with the same token is refused from then on, with whatever other arguments.
  pub spend_once :
      (token password : Text) (name given : Option Text) (metadata : SessionMetadata) (raw : Text)
      (now : ℕ) (db : Accounts) (password' : Text) (name' given' : Option Text)
      (metadata' : SessionMetadata) (raw' : Text) (later : ℕ)
      → Commits
          (Refused (verify_email crypto token password' name' later))
          (verify_email crypto token password name now db)
        × Commits
            (Refused (reset_password crypto token password' later))
            (reset_password crypto token password now db)
        × Commits
            (Refused (confirm_email_change crypto token metadata' raw' later))
            (confirm_email_change crypto token metadata raw now db)
        × Commits
            (Refused (accept_admin_invite crypto token given' name' metadata' raw' later))
            (accept_admin_invite crypto token given name metadata raw now db)
  spend_once token password name given metadata raw now db password' name' given' metadata' raw'
        later =
      (
        Commits-map (IsUsed (crypto.hash_token token) VerificationType.register) _
            (verify_email crypto token password name now db)
            (λ d h. register-Refused token password' name' later d h)
            (verify_email-IsUsed token password name now db),
        Commits-map (IsUsed (crypto.hash_token token) VerificationType.reset_password) _
            (reset_password crypto token password now db)
            (λ d h. reset-Refused token password' later d h)
            (reset_password-IsUsed token password now db),
        Commits-map (IsUsed (crypto.hash_token token) VerificationType.change_email) _
            (confirm_email_change crypto token metadata raw now db)
            (λ d h. change-Refused token metadata' raw' later d h)
            (confirm_email_change-IsUsed token metadata raw now db),
        Commits-map (IsUsed (crypto.hash_token token) VerificationType.invite) _
            (accept_admin_invite crypto token given name metadata raw now db)
            (λ d h. invite-Refused token given' name' metadata' raw' later d h)
            (accept_admin_invite-IsUsed token given name metadata raw now db),
      )
