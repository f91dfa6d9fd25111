-- ===== src/Udp.antt =====
-- src/backend/udp: the UDP back end, which carries packets between the TUN device and a socket.
pub mod Codec
pub mod Routes
pub mod Packet
pub mod Run
pub mod Port
pub mod Setup
mod Tests
