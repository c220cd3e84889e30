-- ===== src/Security/Crypt.antt =====
-- `class Crypt` and `class Integrity` of src/security.cpp.
use g_core_rest_sba.Base.{
  ℕ, Bool, true, false, not, Option, none, some, List, [], ◌∷◌, Bytes, codes, length, take, leb,
  ◌==◌, if◌then◌else◌,
}
use g_core_rest_sba.Base.Stop.{
  Result, ok, stop, overrun, crypt_error, hmac_failure, ◌>>=◌, ◌>>◌, stop_if,
}
use g_core_rest_sba.Packet.Buffer.{
  Packet, buf_size, block, clear_pkt, prepend_item, prepend_s1ap_hdr, extract_bytes,
  extract_s1ap_hdr, truncate,
}
use g_core_rest_sba.Packet.Items.{Item, Kind, append_items, extract_items}
use g_core_rest_sba.Security.Openssl.{Openssl}

-- The keys and the vector that the constructors set. AES reads 32 bytes and 16 bytes.
abbrev pub crypt_key : Bytes
crypt_key = codes "01234567890123456789012345678901"

abbrev pub crypt_iv : Bytes
crypt_iv = codes "0123456789012345"

abbrev pub integrity_key : Bytes
integrity_key = codes "012345678"

abbrev pub hmac_len : ℕ
hmac_len = 20

-- The common end of `enc` and `dec`: a new block with the result, which must fit.
unfoldable pub swapped : Bytes → Packet → Result Packet
unfolding block
swapped bs p =
    if leb (length bs) buf_size
    then ok (record p { data_bytes = block bs; data_ptr = 0; len = length bs })
    else stop overrun

-- `dec` with what OpenSSL answers: an error exits.
unfoldable pub decrypted : Option Bytes → Packet → Result Packet
unfolding swapped
decrypted none p = stop crypt_error
decrypted (some plain) p = swapped plain p

-- `Integrity::cmp_hmacs`, whose arrays have `HMAC_LEN` bytes each.
abbrev pub cmp_hmacs : Bytes → Bytes → Bool
cmp_hmacs [] [] = true
cmp_hmacs [] (y ∷ ys) = false
cmp_hmacs (x ∷ xs) [] = false
cmp_hmacs (x ∷ xs) (y ∷ ys) = let rest = cmp_hmacs xs ys in if x == y then rest else false

module _ (O : Openssl) where
  -- The first `len` bytes of the block, which `enc`, `dec` and `get_hmac` read.
  unfoldable pub contents : Packet → Result Bytes
  contents p = if leb p.len buf_size then ok (take p.len p.data_bytes) else stop overrun

  unfoldable pub enc : Packet → ℕ → Result Packet
  unfolding contents swapped
  enc p k_nas_enc = do plain ← contents p; swapped (O.encrypt crypt_key crypt_iv plain) p

  unfoldable pub dec : Packet → ℕ → Result Packet
  unfolding contents decrypted
  dec p k_nas_enc = do
    q ← truncate p
    cipher ← contents q
    decrypted (O.decrypt crypt_key crypt_iv cipher) q

  unfoldable pub get_hmac : Packet → ℕ → Result Bytes
  unfolding contents
  get_hmac p k_nas_int = do d ← contents p; ok (O.hmac_sha1 integrity_key d)

  unfoldable pub add_hmac : Packet → ℕ → Result Packet
  add_hmac p k_nas_int = do hmac ← get_hmac p k_nas_int; prepend_item hmac p

  unfoldable pub rem_hmac : Packet → Result (Bytes × Packet)
  rem_hmac p = do (hmac, q) ← extract_bytes hmac_len p; r ← truncate q; ok (hmac, r)

  unfoldable pub hmac_check : Packet → ℕ → Result (Bool × Packet)
  hmac_check p k_nas_int = do
    (xres, q) ← rem_hmac p
    res ← get_hmac q k_nas_int
    ok (cmp_hmacs res xres, q)

  -- A message that is sealed and not encrypted, the security mode command.
  abbrev pub build_sealed : List Item → ℕ → ℕ → ℕ → ℕ → Packet → Result Packet
  build_sealed is msg_type enodeb mme k_nas_int p = do
    q ← append_items is (clear_pkt p)
    r ← add_hmac q k_nas_int
    prepend_s1ap_hdr msg_type r.len enodeb mme r

  -- A protected message, as the AMF and the UE build it after the security mode command, and as
  -- the other side takes it apart; a failed check exits.
  abbrev pub build_nas : List Item → ℕ → ℕ → ℕ → ℕ → ℕ → Packet → Result Packet
  build_nas is msg_type enodeb mme k_nas_enc k_nas_int p = do
    q ← append_items is (clear_pkt p)
    q1 ← enc q k_nas_enc
    q2 ← add_hmac q1 k_nas_int
    prepend_s1ap_hdr msg_type q2.len enodeb mme q2

  abbrev pub parse_nas : List Kind → ℕ → ℕ → Packet → Result (ℕ × ℕ × ℕ × List Item)
  parse_nas ks k_nas_enc k_nas_int p = do
    q ← extract_s1ap_hdr p
    (res, q1) ← hmac_check q k_nas_int
    stop_if (not res) hmac_failure
    q2 ← dec q1 k_nas_enc
    (is, r) ← extract_items ks q2
    ok (q.s1ap_hdr.msg_type, q.s1ap_hdr.enodeb_s1ap_ue_id, q.s1ap_hdr.mme_s1ap_ue_id, is)
