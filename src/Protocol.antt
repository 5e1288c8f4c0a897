-- ===== src/Protocol.antt =====
-- packages/protocol/src: the wire protocol between the driver and its clients.
mod Utf8
pub mod Framing
