-- ===== src/Packet.antt =====
-- src/packet.h and src/packet.cpp: the byte buffer in which every interface but the HTTP one
-- carries its messages, with the three headers that it can put in front.
pub mod Codec
pub mod Header
pub mod Buffer
pub mod Contents
pub mod Items
pub mod Message
pub mod Copies
pub mod Examples
