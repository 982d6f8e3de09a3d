-- ===== src/Payments.antt =====
-- apps/backend/payments: the fee estimator, the deduplication of contract events, and the
-- validation of requests.
pub mod Fees
pub mod Dedup
pub mod Validation
