-- ===== src/Security/Openssl.antt =====
-- What src/security.cpp uses of OpenSSL: HMAC with SHA-1, and AES-256 in CBC mode with padding.
use g_core_rest_sba.Base.{◌+◌, ◌≤◌, ◌≡◌, Option, some, Bytes, length}

-- The first argument is the key, the second the initialisation vector where there is one. A
-- digest has 20 bytes; the padding adds at most a block of 16; decryption fails on a bad padding.
pub record Openssl : Type 0 where
  pub hmac_sha1 : Bytes → Bytes → Bytes
  pub encrypt : Bytes → Bytes → Bytes → Bytes
  pub decrypt : Bytes → Bytes → Bytes → Option Bytes
  pub length-hmac_sha1 : (k d : Bytes) → length (hmac_sha1 k d) ≡ 20
  pub length-encrypt : (k iv d : Bytes) → length (encrypt k iv d) ≤ length d + 16
  pub decrypt-encrypt : (k iv d : Bytes) → decrypt k iv (encrypt k iv d) ≡ some d
