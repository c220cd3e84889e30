-- ===== src/Udm.antt =====
-- src/udm.h, src/udm.cpp and src/udm_server.cpp: the unified data management function, which keeps
-- the contexts of the UEs for the other functions.
pub mod State
pub mod Handlers
pub mod Sessions
pub mod Server
pub mod Isolation
pub mod Keys
pub mod Client
