-- ===== src/Attach.antt =====
-- The attach of a simulated UE, through the RAN, the AMF, the AUSF and the UDM.
pub mod Vectors
pub mod Network
pub mod Challenge
pub mod Answer
pub mod NasKeys
pub mod SecurityMode
pub mod Judgement
pub mod Run
pub mod Secured
pub mod Detach
pub mod Detached
pub mod Examples
pub mod SecuredExamples
pub mod DetachExamples
