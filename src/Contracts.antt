-- ===== src/Contracts.antt =====
-- What the runtime's parts exchange: errors (Contracts/Errors) and events (Contracts/Events), from
-- packages/core/src/contracts and the argument types of packages/core/src/adapter/storage.
pub mod Errors
pub mod Events
