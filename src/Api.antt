-- ===== src/Api.antt =====
-- The HTTP layer: backend/api.
pub mod RateLimit
