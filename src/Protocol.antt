-- ===== src/Protocol.antt =====
-- app/backend/core/protocol.py: the Minecraft wire format, and the buffered reader over it.
pub mod Result
pub mod Bytes
pub mod Text
pub mod Varint
pub mod Packet
pub mod Legacy
pub mod Buffer
pub mod Json
pub mod Reader
mod Examples
