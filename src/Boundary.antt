-- ===== src/Boundary.antt =====
-- gateway/app/request_boundary.py: the limits on bytes and concurrency that every request passes.
pub mod Request
pub mod Serve
pub mod Sound
pub mod Headers
mod Tests
