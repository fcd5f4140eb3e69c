-- ===== src/Kernel/Retry/Delays.antt =====
-- kernel/shared/retry.ts: the delays never shrink and never pass the limit.
