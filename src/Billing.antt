-- ===== src/Billing.antt =====
-- api/app/services/billing.py: prices, periods, and the functions that move money between the
-- wallet, the subscriptions and the API key counters.
pub mod Period
pub mod Pricing
mod Examples
pub mod Accounts
pub mod Charge
pub mod Others
pub mod Refund
pub mod Grant
pub mod Renew
