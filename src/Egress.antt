-- ===== src/Egress.antt =====
-- ci/egress: the programs that stand in for the network in the audit of what a device sends. The
-- parser of ClientHellos is `Collector`.
pub mod Sorting
pub mod Keys
pub mod Inventory
pub mod Mock
pub mod Diag
