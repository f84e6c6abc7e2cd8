-- ===== src/Api/Payment/Owners.antt =====
-- The calls of apps/api/internal/domain/payment by others than the owner of an intent.
