-- ===== src/Smf.antt =====
-- src/smf.h and src/smf.cpp: the function between the AMF and the UPF.
pub mod Handlers
pub mod Server
pub mod Release
pub mod Releasing
pub mod Creating
pub mod Creation
pub mod Modification
pub mod Lifecycle
pub mod Examples
