-- ===== src/Net.antt =====
-- Project/NetLib and Project/CoreNetClientLib: the ring buffer of a session, the packets, how
-- received bytes become packets, and how the bytes of a packet are sent.
pub mod Packet
pub mod Receive
pub mod Ring
pub mod Send
pub mod Socket
mod Tests
