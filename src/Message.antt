-- ===== src/Message.antt =====
-- pkg/libol/message.go: frames on a connection, and what is parsed from them.
pub mod Proto
pub mod Frame
pub mod Stream
pub mod Packet
