-- ===== src/Epx.antt =====
-- The protocol of epochs-server/src/epx.rs: the bytes on a connection.
pub mod Base64
pub mod Frame
