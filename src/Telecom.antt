-- ===== src/Telecom.antt =====
-- src/telecom.cpp and the identities built with it: `AmfIds` and `Amf::get_s11cteidamf` of
-- src/amf.cpp, `RanContext::init` of src/ran.cpp.
pub mod Decimal
pub mod Identity
pub mod Examples
