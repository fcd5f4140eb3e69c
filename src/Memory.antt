-- ===== src/Memory.antt =====
-- packages/core/src/memory: the in-memory storage adapter, one module for each store.
pub mod Entries
pub mod Checkpoints
pub mod Idempotency
pub mod PersonalKeys
pub mod Persons
pub mod Snapshots
pub mod Forgetting
pub mod EventStore
pub mod Scheduler
pub mod InboxLedger
pub mod DeadLetters
pub mod ForgetLedger
pub mod Transaction
