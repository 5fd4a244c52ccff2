-- ===== src/Personal.antt =====
-- gateway/app/deployment_mode.py and gateway/app/firstmate_execution.py: a deployment for one person, its
-- policy and the ledger of what its objectives may spend.
pub mod Policy
pub mod Rows
pub mod Ledger
pub mod Settle
pub mod Budget
pub mod Run
pub mod Within
pub mod Errors
pub mod Replay
mod Tests
