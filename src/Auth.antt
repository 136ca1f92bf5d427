-- ===== src/Auth.antt =====
-- Accounts: the queries of src/modules/auth/auth.repo.ts (Repo) and the handlers of auth.service.ts, those
-- of sessions and tokens (Tokens) and the others (Service).
pub mod Repo
pub mod Tokens
pub mod Service
