-- ===== src/Net.antt =====
-- What src/network.cpp and the socket classes do with packets.
pub mod Udp
pub mod Stream
pub mod Frames
pub mod Framing
pub mod RoundTrip
pub mod Examples
