-- ===== src/Containerd.antt =====
-- infrastructure/containerd: the repository of microvms, the leases and the images, over containerd's
-- client as a parameter.
pub mod Labels
pub mod Client
pub mod Events
pub mod Lease
pub mod Locks
pub mod Repo
pub mod Mounts
pub mod Images
