-- ===== src/Gossipsub.antt =====
-- The gossipsub package: the publisher on a session's router, and raw RPC frames.
pub mod Publisher
pub mod Rpc
