-- ===== src/Orchestrator/Saga.antt =====
-- apps/backend/orchestrator/src/saga: the coordinator of types.ts and coordinator.ts, and the
-- in-memory store of memory-store.ts.
--
-- A coordinator runs in a world: the store, the trace of the actions and compensations that have
-- run, and the number of store operations and step functions awaited so far. The clock gives the
-- time after that many awaits; the readings between two awaits are one reading. What an action or
-- a compensation does may depend on the trace, so a step may fail once and succeed later.
pub mod Store
pub mod Coordinator
pub mod Spec
pub mod Alone
pub mod Refines
pub mod AllOrNothing
pub mod Exclusive
pub mod Isolated
pub mod Recovery
mod Tests
