-- ===== src/Hypervisor.antt =====
-- infrastructure/microvm: what is handed to a hypervisor for a microvm.
pub mod Os
pub mod CmdLine
pub mod CloudInitNetwork
pub mod Firecracker
pub mod CloudHypervisor
