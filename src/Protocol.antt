-- ===== src/Protocol.antt =====
-- protocol/mysql: the wire protocol.
pub mod Codec
pub mod Constants
pub mod Framer
pub mod Handshake
pub mod Packets
pub mod Connector
