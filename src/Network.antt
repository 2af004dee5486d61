-- ===== src/Network.antt =====
-- infrastructure/network: the service for the host's interfaces, over netlink as a parameter.
pub mod Netlink
pub mod Names
pub mod Service
