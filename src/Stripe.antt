-- ===== src/Stripe.antt =====
-- gateway/app/billing.py: the webhooks of the payment provider.
pub mod Json
pub mod Verify
pub mod Rows
pub mod Subscription
pub mod Invoice
pub mod Process
pub mod Replay
pub mod Period
pub mod Stale
pub mod Tests
