-- ===== src/Models.antt =====
-- core/models: the data that the other parts pass around.
pub mod Vmid
pub mod Capability
pub mod Volumes
pub mod Network
pub mod Microvm
