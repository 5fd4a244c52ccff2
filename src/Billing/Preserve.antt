-- ===== src/Billing/Preserve.antt =====
-- gateway/app/billing.py: every operation of `CreditLedger` keeps the ledger's invariant.
pub mod Account
pub mod Reserve
pub mod Settle
pub mod Credit
pub mod Run
