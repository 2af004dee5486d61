-- ===== src/Tests.antt =====
-- Runs of the development at concrete inputs.
mod Host
mod Identifiers
mod Actuator
mod Procedures
mod UseCases
mod Workers
mod Running
mod Metadata
mod Messages
mod Interfaces
mod Storage
mod Events
mod Images
mod Machines
mod Hypervisors
mod CloudHypervisors
