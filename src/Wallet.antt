-- ===== src/Wallet.antt =====
-- apps/backend/wallet: sequence numbers, spending limits, the transaction worker, and
-- the vault of keys.
pub mod Redis
pub mod Sequence
pub mod Limits
pub mod Failure
pub mod Job
pub mod Enqueue
pub mod Vault
