-- ===== src/Redis.antt =====
-- `RedisQueueBackend` of src/classes/redis-queue-backend.ts.
pub mod NodeKeys
pub mod Adding
pub mod Options
pub mod Pausing
