-- ===== src/Secrets.antt =====
-- internal/secrets: the credentials and their cache.
pub mod Cache
pub mod Tests
