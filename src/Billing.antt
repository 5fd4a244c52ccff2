-- ===== src/Billing.antt =====
-- gateway/app/billing.py: the plans, the integer credit ledger and the webhooks that feed it.
pub mod Catalog
pub mod Db
pub mod Account
pub mod Reserve
pub mod Settle
pub mod Credit
pub mod Invariant
pub mod Preserve
pub mod Limits
pub mod Replay
pub mod Cost
pub mod Refunds
pub mod Grants
mod Tests
