-- ===== src/Rlpx.antt =====
-- The rlpx package: the disconnect reasons and the authenticated frames.
pub mod Disconnect
pub mod Frame
