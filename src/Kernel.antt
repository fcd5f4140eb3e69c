-- ===== src/Kernel.antt =====
-- packages/core/src/kernel: the runtime over the storage.
pub mod InOrder
pub mod Retry
pub mod Values
pub mod Aggregate
pub mod Delivery
pub mod Projection
pub mod Dispatcher
pub mod Worker
pub mod Attempt
pub mod PendingRetries
