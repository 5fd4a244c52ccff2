-- ===== src/Routing.antt =====
-- gateway/app/magi_routing.py: the choice of a model, its budget and the failover between models.
pub mod Model
pub mod Store
pub mod Select
pub mod Failover
pub mod Ledger
pub mod Order
pub mod Attempts
pub mod Effects
pub mod Budget
pub mod Bound
pub mod Tests
pub mod Authority
