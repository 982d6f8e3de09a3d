-- ===== src/Orchestrator.antt =====
-- apps/backend/orchestrator: the purchase workflow machine, the saga coordinator, the stored purchase
-- workflows, the checkouts, and the claims of messages.
pub mod Machine
pub mod Saga
pub mod Purchase
pub mod Messages
pub mod Checkout
