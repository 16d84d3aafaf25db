-- ===== src/Proxy.antt =====
-- The proxy of a listing, app/backend/core/proxy.py.
pub mod Sessions
pub mod Bridges
pub mod Steps
pub mod Forwarding
pub mod Listener
pub mod Status
pub mod Identify
pub mod Answers
pub mod Client
mod Examples
