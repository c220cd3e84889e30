-- ===== src/Ran.antt =====
-- src/ran.h and src/ran.cpp: the simulated UE with its eNodeB.
pub mod Context
pub mod Traffic
pub mod UserPlane
pub mod Session
pub mod Handover
pub mod Examples
