-- ===== src/Reqresp.antt =====
-- reqresp: the consensus request/response protocols.
pub mod Framing
pub mod Exchange
pub mod Spec
pub mod Status
pub mod Ssz
