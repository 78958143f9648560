-- ===== src/Router.antt =====
-- The choice of a model and a channel for a request, api/app/services/providers/router.py.
pub mod Targets
pub mod Weighted
pub mod RoundRobin
pub mod Route
mod Examples
