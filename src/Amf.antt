-- ===== src/Amf.antt =====
-- src/amf.h, src/amf.cpp and src/amf_server.cpp: the function that the RAN talks to.
pub mod State
pub mod Attach
pub mod Security
pub mod Session
pub mod Bearer
pub mod Handover
pub mod Server
pub mod Numbers
pub mod Invariant
pub mod Serving
pub mod Tunnel
pub mod Admission
pub mod Examples
