-- ===== src/OAuth.antt =====
-- gateway/app/oauth_transactions.py: the redirect policy and the one-time states of OAuth.
pub mod Redirect
pub mod Store
pub mod Lifecycle
pub mod RoundTrip
mod Tests
