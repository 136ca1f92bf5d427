-- ===== src/Order.antt =====
-- The life of an order after checkout: src/modules/order/order.repo.ts (Repo),
-- src/shared/order/order.utils.ts (Guards), src/modules/admin/order/order.service.ts (Admin),
-- src/modules/user/order/order.user.service.ts (User) and src/modules/internal/workers/worker.repo.ts
-- with src/workers/jobs/auto-complete-delivered-orders.job.ts (Worker).
pub mod Repo
pub mod Guards
pub mod Admin
pub mod User
pub mod Worker
pub mod View
pub mod Lifecycle
