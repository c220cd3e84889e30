-- ===== src/Security/Arrival.antt =====
-- A protected message on its way: what the other side receives, and how it is opened, by the two
-- classes of src/security.cpp.
use g_core_rest_sba.Base.{
  ℕ, ◌+◌, ◌≤◌, ◌<◌, ◌≡◌, refl, sym, ap, ◌∙◌, Bool, true, false, List, [], ◌∷◌, ◌++◌, arith, Bytes,
  length, length-append, le→leb, when,
}
use g_core_rest_sba.Base.Stop.{ok, bind_ok}
use g_core_rest_sba.Net.Stream.{is_closed, is_closed_lem}
use g_core_rest_sba.Packet.Codec.{le_bytes, of_le, byte_range, length-le_bytes, of_le-le_bytes}
use g_core_rest_sba.Packet.Header.{S1ap, S1apInRange, s1ap_image, length-s1ap_image, s1ap_hdr_len}
use g_core_rest_sba.Packet.Buffer.{
  Packet, buf_size, copy, deliver, extract_num, extract_bool, extract_s1ap_hdr,
}
use g_core_rest_sba.Packet.Contents.{Reads, Reads-data_ptr, extract_bytes_lem, take-block}
use g_core_rest_sba.Packet.Items.{Item, flag, image, images}
use g_core_rest_sba.Security.Openssl.{Openssl}
use g_core_rest_sba.Security.Crypt.{crypt_key, crypt_iv, integrity_key, hmac_len, dec, hmac_check}
use g_core_rest_sba.Security.Filled.{
  Left, Left-data_ptr, Left-s1ap_hdr, deliver_lem, extract_s1ap_hdr_lem, filled, filled-Left,
  filled-Reads,
}
use g_core_rest_sba.Security.Seal.{Message, mac, cipher, hmac_check-Left, dec_lem, cmp_hmacs_refl}

-- A number read off the front, and what is left.
pub num_lem :
    (p : Packet) (n x : ℕ) (ds : Bytes)
    → x < byte_range n
    → Reads p (le_bytes n x ++ ds)
    → (extract_num n p ≡ ok (x, record p { data_ptr = p.data_ptr + n }))
      × Reads (record p { data_ptr = p.data_ptr + n }) ds
unfolding extract_num
num_lem p n x ds small h =
    let e : n ≡ length (le_bytes n x) = sym (length-le_bytes n x) in
    (
      bind_ok _ (extract_bytes_lem p n (le_bytes n x) ds e h)
          (ap (λ y. ok (y, record p { data_ptr = p.data_ptr + n })) (of_le-le_bytes n x small)),
      Reads-data_ptr p n (le_bytes n x) ds e h,
    )

pub flag_lem :
    (p : Packet) (b : Bool) (ds : Bytes)
    → Reads p (image (flag b) ++ ds)
    → (extract_bool p ≡ ok (b, record p { data_ptr = p.data_ptr + 1 }))
      × Reads (record p { data_ptr = p.data_ptr + 1 }) ds
unfolding extract_bool extract_num of_le
flag_lem p true ds h = (
  bind_ok _ (bind_ok _ (extract_bytes_lem p 1 (1 ∷ []) ds refl h) refl) refl,
  Reads-data_ptr p 1 (1 ∷ []) ds refl h,
)
flag_lem p false ds h = (
  bind_ok _ (bind_ok _ (extract_bytes_lem p 1 (0 ∷ []) ds refl h) refl) refl,
  Reads-data_ptr p 1 (0 ∷ []) ds refl h,
)

module _ (O : Openssl) where
  -- A packet whose header is extracted and whose digest and contents are left.
  pub record Delivered (q : Packet) (bs : Bytes) (t enodeb mme : ℕ) : Type 0 where
    pub is_type : q.s1ap_hdr.msg_type ≡ t
    pub is_enodeb : q.s1ap_hdr.enodeb_s1ap_ue_id ≡ enodeb
    pub is_mme : q.s1ap_hdr.mme_s1ap_ue_id ≡ mme
    pub in_range : S1apInRange q.s1ap_hdr
    pub copies : copy q ≡ ok q
    pub left : Left q (mac O bs ++ bs)

  copied_whole :
      (rx : Packet) (h : S1ap) (ds : Bytes) (n : ℕ)
      → length ds ≤ buf_size
      → copy (record (filled rx ds) { data_ptr = n; s1ap_hdr = h })
        ≡ ok (record (filled rx ds) { data_ptr = n; s1ap_hdr = h })
  unfolding copy
  copied_whole rx h ds n room =
      when _ (le→leb (length ds) buf_size room) (rw (take-block (length ds) ds refl) refl)

  -- A message that was sent arrives: its connection is open, and it is there with its header read.
  pub arrives :
      (c rx : Packet) (bs : Bytes) (t enodeb mme : ℕ)
      → Message O c bs t enodeb mme
      → s1ap_hdr_len + hmac_len + length bs ≤ buf_size
      → (q : Packet) × (extract_s1ap_hdr (deliver c rx) ≡ ok q)
        × Delivered q bs t enodeb mme
        × (is_closed (deliver c rx).len ≡ false)
  unfolding deliver
  arrives c rx bs t enodeb mme m room =
      let twenty : length (mac O bs) ≡ 20 = O.length-hmac_sha1 integrity_key bs in
      let h = m.header in
      let ds : Bytes = mac O bs ++ bs in
      let whole : Bytes = s1ap_image h ++ ds in
      let n : length whole ≡ 32 + length bs = omega (
        arith,
        length-append (s1ap_image h) ds,
        length-append (mac O bs) bs,
        length-s1ap_image h,
      ) in
      let l0 : Left (filled rx whole) whole = filled-Left rx whole (omega arith) in
      (
        record (filled rx whole) { data_ptr = 0 + s1ap_hdr_len; s1ap_hdr = h },
        ap extract_s1ap_hdr (deliver_lem c rx whole m.holds)
            ∙ extract_s1ap_hdr_lem (filled rx whole) h ds m.in_range l0.reads,
        record {
          is_type = m.is_type;
          is_enodeb = m.is_enodeb;
          is_mme = m.is_mme;
          in_range = m.in_range;
          copies = copied_whole rx h whole (0 + s1ap_hdr_len) (omega arith);
          left =
              Left-s1ap_hdr (record (filled rx whole) { data_ptr = 0 + s1ap_hdr_len }) h ds
                (Left-data_ptr (filled rx whole) s1ap_hdr_len (s1ap_image h) ds
                  (sym (length-s1ap_image h)) l0);
        },
        is_closed_lem c.len (omega (arith, m.holds.counted, n)) (omega (arith, m.holds.counted, n)),
      )

  -- The digest of a message that arrived is right, whatever key is passed.
  pub checks :
      (q : Packet) (bs : Bytes) (t enodeb mme k_nas_int : ℕ)
      → Delivered q bs t enodeb mme
      → hmac_check O q k_nas_int ≡ ok (true, filled q bs)
  checks q bs t enodeb mme k_nas_int d =
      hmac_check-Left O q k_nas_int (mac O bs) bs (sym (O.length-hmac_sha1 integrity_key bs)) d.left
      ∙ ap (λ b. ok (b, filled q bs)) (cmp_hmacs_refl (mac O bs))

  -- An encrypted message that arrived is checked, deciphered, and its items are there to be read.
  pub opens :
      (q : Packet) (is : List Item) (t enodeb mme k_nas_enc k_nas_int : ℕ)
      → Delivered q (cipher O (images is)) t enodeb mme
      → s1ap_hdr_len + hmac_len + length (images is) + 16 ≤ buf_size
      → (hmac_check O q k_nas_int ≡ ok (true, filled q (cipher O (images is))))
        × (dec O (filled q (cipher O (images is))) k_nas_enc ≡ ok (filled q (images is)))
        × Reads (filled q (images is)) (images is)
  opens q is t enodeb mme k_nas_enc k_nas_int d room = (
    checks q (cipher O (images is)) t enodeb mme k_nas_int d,
    dec_lem O q k_nas_enc (images is)
        (omega (arith, O.length-encrypt crypt_key crypt_iv (images is))) (omega arith),
    filled-Reads q (images is) (omega arith),
  )
