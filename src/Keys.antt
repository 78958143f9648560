-- ===== src/Keys.antt =====
-- The lifecycle of API keys, api/app/services/api_key.py.
pub mod Window
pub mod State
pub mod Cached
pub mod Sweep
mod Examples
