-- ===== src/Security.antt =====
-- src/security.h and src/security.cpp: the cipher and the digest of the NAS messages.
pub mod Openssl
pub mod Crypt
pub mod Filled
pub mod Seal
pub mod Arrival
pub mod Examples
