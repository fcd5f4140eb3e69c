-- ===== src/Adapter.antt =====
-- packages/core/src/adapter: what the storage adapters share.
pub mod Order
pub mod StagedEvents
pub mod DeferredWrites
