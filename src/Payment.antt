-- ===== src/Payment.antt =====
-- Payments: the webhook of src/modules/payment (controller, service, repo, mapper, constants) and the
-- request that src/modules/payment/midtrans builds.
pub mod Token
pub mod Status
pub mod Payload
pub mod Repo
pub mod Webhook
pub mod Midtrans
