-- ===== src/Auth/Repo/Sessions.antt =====
-- The queries on user_sessions and refresh_tokens of src/modules/auth/auth.repo.ts.
use commerce_core_api.Common.{
  ℕ, suc, Bool, not, ◌&&◌, Option, none, some, [], ◌∷◌, ◌++◌, Text, text_eq, is_some, ◌==◌,
}
use commerce_core_api.Common.Error.{Tx, gets, modify, throw_if, internal, pure, ◌>>=◌, ◌>>◌}
use commerce_core_api.Common.Table.{find, find_by, update}
use commerce_core_api.Database.Account.{SessionMetadata, UserSessionRow, TokenRow, Accounts}

abbrev pub session_key : UserSessionRow → ℕ
session_key s = s.id

abbrev pub token_key : TokenRow → ℕ
token_key t = t.id

abbrev pub new_session : ℕ → ℕ → SessionMetadata → ℕ → UserSessionRow
new_session id user_id metadata now = record {
  id = id;
  user_id = user_id;
  metadata = metadata;
  last_used_at = now;
  revoked_at = none;
}

-- Returns the id of the row. `metadata.client` has the type AuthTransport, whose words the CHECK of the table
-- lists.
unfoldable pub insert_user_session : ℕ → SessionMetadata → ℕ → Tx Accounts ℕ
insert_user_session user_id metadata now = do
  id ← gets λ db. db.next_session_id
  modify λ db. record db {
    sessions = db.sessions ++ (new_session id user_id metadata now ∷ []);
    next_session_id = suc id;
  }
  pure id

abbrev pub update_sessions :
    (UserSessionRow → Bool) → (UserSessionRow → UserSessionRow) → Accounts → Accounts
update_sessions p f db = record db { sessions = update p f db.sessions }

abbrev pub update_tokens : (TokenRow → Bool) → (TokenRow → TokenRow) → Accounts → Accounts
update_tokens p f db = record db { tokens = update p f db.tokens }

abbrev pub set_last_used : ℕ → UserSessionRow → UserSessionRow
set_last_used now s = record s { last_used_at = now }

unfoldable pub update_session_last_used_at : ℕ → ℕ → Tx Accounts (Unit {0})
update_session_last_used_at session_id now =
    modify (update_sessions (λ s. s.id == session_id) (set_last_used now))

abbrev pub set_session_revoked : ℕ → UserSessionRow → UserSessionRow
set_session_revoked now s = record s { revoked_at = some now }

unfoldable pub revoke_session : ℕ → ℕ → Tx Accounts (Unit {0})
revoke_session session_id now = modify (
    update_sessions (λ s. s.id == session_id && not (is_some s.revoked_at))
      (set_session_revoked now))

abbrev pub set_token_revoked : ℕ → TokenRow → TokenRow
set_token_revoked now t = record t { revoked_at = some now }

unfoldable pub revoke_session_refresh_tokens : ℕ → ℕ → Tx Accounts (Unit {0})
revoke_session_refresh_tokens session_id now = modify (
    update_tokens (λ t. t.session_id == session_id && not (is_some t.revoked_at))
      (set_token_revoked now))

unfoldable pub revoke_all_user_sessions : ℕ → ℕ → Tx Accounts (Unit {0})
revoke_all_user_sessions user_id now = modify (
    update_sessions (λ s. s.user_id == user_id && not (is_some s.revoked_at))
      (set_session_revoked now))

unfoldable pub revoke_all_user_refresh_tokens : ℕ → ℕ → Tx Accounts (Unit {0})
revoke_all_user_refresh_tokens user_id now = modify (
    update_tokens (λ t. t.user_id == user_id && not (is_some t.revoked_at)) (set_token_revoked now))

abbrev pub has_hash : Text → TokenRow → Bool
has_hash hash t = text_eq t.token_hash hash

-- `RefreshTokenRow`: a token, with `session_revoked_at`
abbrev pub join_session : Accounts → Option TokenRow → Option (TokenRow × Option ℕ)
join_session db none = none
join_session db (some t) = elim (find session_key t.session_id db.sessions) [
  | none ↦ none
  | some s ↦ some (t, s.revoked_at)
]

unfoldable pub find_refresh_token_by_hash_for_update :
    Text → Tx Accounts (Option (TokenRow × Option ℕ))
find_refresh_token_by_hash_for_update hash =
    gets λ db. join_session db (find_by (has_hash hash) db.tokens)

abbrev pub new_token : ℕ → ℕ → ℕ → Text → ℕ → Option ℕ → TokenRow
new_token id user_id session_id token_hash expires_at replaced_by_id = record {
  id = id;
  user_id = user_id;
  session_id = session_id;
  token_hash = token_hash;
  expires_at = expires_at;
  revoked_at = none;
  replaced_by_id = replaced_by_id;
}

unfoldable pub insert_refresh_token : ℕ → ℕ → Text → ℕ → Option ℕ → Tx Accounts (Unit {0})
insert_refresh_token user_id session_id token_hash expires_at replaced_by_id = do
  taken ← gets λ db. find_by (has_hash token_hash) db.tokens
  throw_if (is_some taken) internal
  modify λ db. record db {
    tokens =
        db.tokens
        ++ (new_token db.next_token_id user_id session_id token_hash expires_at replaced_by_id
            ∷ []);
    next_token_id = suc db.next_token_id;
  }

unfoldable pub revoke_refresh_token : ℕ → ℕ → Tx Accounts (Unit {0})
revoke_refresh_token token_id now =
    modify (update_tokens (λ t. t.id == token_id) (set_token_revoked now))
