-- ===== src/Msg.antt =====
-- src/msg.c, the message handler. A message is laid out at fixed offsets of a buffer.
pub mod Bytes
pub mod Pack
pub mod Unpack
pub mod Octets
pub mod Header
pub mod Stamp
pub mod RoundTrip
pub mod Footprint
mod Examples
