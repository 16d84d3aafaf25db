-- ===== src/Backend.antt =====
-- A backend, which runs a Minecraft server as a subprocess: app/backend/core/backend.py.
pub mod Process
pub mod Sleep
pub mod Ports
mod Examples
