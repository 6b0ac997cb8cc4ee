-- ===== src/Discovery.antt =====
-- The discovery package: the records of DNS node lists, and the challenges of discv5.
pub mod Dnsdisc
pub mod Discv5
