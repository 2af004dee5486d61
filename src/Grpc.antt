-- ===== src/Grpc.antt =====
-- infrastructure/grpc: the service's messages, their conversion from and to the models, the
-- cleaning of image references, and the handlers of the service.
pub mod Wire
pub mod Sanitize
pub mod Convert
pub mod Server
