-- ===== src/QuotaCache.antt =====
-- The quota state that api/app/services/quota_cache.py keeps in Redis for the hot path.
pub mod Redis
pub mod Hydrate
pub mod Check
pub mod Apply
pub mod Memory
mod Examples
