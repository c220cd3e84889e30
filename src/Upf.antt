-- ===== src/Upf.antt =====
-- src/upf.h, src/upf.cpp and src/upf_server.cpp: the user plane function. It answers the N4
-- requests of the SMF and the AMF, and forwards user data between the RAN and the sink.
pub mod State
pub mod Addresses
pub mod Handlers
pub mod Request
pub mod Refinement
pub mod UserPlane
pub mod Sessions
pub mod Changes
pub mod Examples
pub mod Exchange
pub mod Downlink
pub mod Startup
