-- ===== src/Ip.antt =====
-- src/ip.rs: HART-IP packets, a session over a stream, its exchanges, and the byte channel over a session.
pub mod Packet
pub mod Stream
pub mod Session
pub mod Transport
pub mod Exchange
pub mod Channel
mod Tests
