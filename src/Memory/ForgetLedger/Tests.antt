-- ===== src/Memory/ForgetLedger/Tests.antt =====
-- Entries of two tenants.
