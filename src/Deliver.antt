-- ===== src/Deliver.antt =====
-- mirbft/orderer/globaldeliver.go: delivery in the global order.
pub mod Prefix
pub mod Global
pub mod Group
