-- ===== src/Eth.antt =====
-- The eth package: capability negotiation, the connection and its dial.
pub mod Caps
pub mod Conn
pub mod Dial
pub mod Wire
pub mod Status
pub mod PreStatus
