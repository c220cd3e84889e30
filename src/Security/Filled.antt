-- ===== src/Security/Filled.antt =====
-- Packets whose whole contents are known, as src/security.cpp leaves them: filled anew by the cipher,
-- cut off behind the cursor, or with a digest or a header put in front.
use g_core_rest_sba.Base.{
  ℕ, ◌+◌, ◌≤◌, ◌≡◌, refl, sym, ap, ◌∙◌, false, ◌++◌, arith, Bytes, length, length-append, take,
  drop, take-append, le→leb, replicate, ◌-◌, unless, when, ltb,
}
use g_core_rest_sba.Base.Stop.{ok, bind_ok}
use g_core_rest_sba.Packet.Header.{
  S1ap, S1apInRange, s1ap_image, s1ap_of_image-s1ap_image, length-s1ap_image, s1ap_hdr_len,
}
use g_core_rest_sba.Packet.Buffer.{
  Packet, buf_size, block, prepend_item, extract_s1ap_hdr, truncate, deliver,
}
use g_core_rest_sba.Packet.Contents.{
  Reads, extract_bytes_lem, Reads-data_ptr, length-block, take-block,
}
use g_core_rest_sba.Packet.Message.{Reads-s1ap_hdr}

-- A packet whose block was filled with `bs` and zeros.
abbrev pub filled : Packet → Bytes → Packet
filled p bs = record p { data_bytes = block bs; data_ptr = 0; len = length bs }

pub filled-Reads : (p : Packet) (bs : Bytes) → length bs ≤ buf_size → Reads (filled p bs) bs
unfolding block
filled-Reads p bs h = record {
  sized = unfold block in length-block bs h;
  within = omega arith;
  fits = h;
  tail = replicate (buf_size - length bs) 0;
  ahead = refl;
}

-- A packet of which `bs` is exactly what is left to read.
pub record Left (p : Packet) (bs : Bytes) : Type 0 where
  pub reads : Reads p bs
  pub ends : p.len ≡ p.data_ptr + length bs

pub Left-fits : (p : Packet) (bs : Bytes) → Left p bs → length bs ≤ buf_size
Left-fits p bs h = omega (arith, h.ends, h.reads.fits)

pub filled-Left : (p : Packet) (bs : Bytes) → length bs ≤ buf_size → Left (filled p bs) bs
filled-Left p bs h = record { reads = filled-Reads p bs h; ends = omega arith }

pub Left-data_ptr :
    (p : Packet) (n : ℕ) (cs ds : Bytes)
    → n ≡ length cs
    → Left p (cs ++ ds)
    → Left (record p { data_ptr = p.data_ptr + n }) ds
Left-data_ptr p n cs ds e h = record {
  reads = Reads-data_ptr p n cs ds e h.reads;
  ends = omega (arith, h.ends, length-append cs ds);
}

pub le→ltb_false : (a b : ℕ) → b ≤ a → ltb a b ≡ false
le→ltb_false a b h = ground arith

refilled :
    (p : Packet) (bs ds : Bytes) (n : ℕ)
    → n ≡ length bs
    → ds ≡ bs
    → ok (record p { data_bytes = block ds; data_ptr = 0; len = n }) ≡ ok (filled p bs)
refilled p bs ds n e f = rw (e, f) refl

pub truncate_lem : (p : Packet) (bs : Bytes) → Left p bs → truncate p ≡ ok (filled p bs)
unfolding truncate block
truncate_lem p bs h =
    let n : ℕ = p.len - p.data_ptr in
    let kept : take n (drop p.data_ptr p.data_bytes) ≡ bs =
      ap (take n) h.reads.ahead ∙ take-append n bs h.reads.tail (omega (arith, h.ends)) in
    unless _ (le→ltb_false p.len p.data_ptr (omega (arith, h.ends))) (
      when _ (le→leb p.len buf_size h.reads.fits)
        (refilled p bs (take n (drop p.data_ptr p.data_bytes)) n (omega (arith, h.ends)) kept))

-- What a packet holds, wherever its cursor stands.
pub record Holds (p : Packet) (bs : Bytes) : Type 0 where
  pub counted : p.len ≡ length bs
  pub holds : take p.len p.data_bytes ≡ bs

pub filled-Holds : (p : Packet) (bs : Bytes) → Holds (filled p bs) bs
filled-Holds p bs = record { counted = refl; holds = take-block (length bs) bs refl }

abbrev pub prepended : Bytes → Packet → Packet
prepended cs p = record p {
  data_bytes = block (cs ++ take p.len p.data_bytes);
  data_ptr = p.data_ptr + length cs;
  len = p.len + length cs;
}

pub prepended-Holds : (p : Packet) (cs bs : Bytes) → Holds p bs → Holds (prepended cs p) (cs ++ bs)
prepended-Holds p cs bs h = record {
  counted = omega (arith, h.counted, length-append cs bs);
  holds =
      rw h.holds
        (take-block (p.len + length cs) (cs ++ bs) (omega (arith, h.counted, length-append cs bs)));
}

pub prepend_lem :
    (p : Packet) (cs : Bytes)
    → length cs + p.len ≤ buf_size
    → prepend_item cs p ≡ ok (prepended cs p)
unfolding prepend_item
prepend_lem p cs h = when _ (le→leb (length cs + p.len) buf_size h) refl

pub deliver_lem : (c rx : Packet) (bs : Bytes) → Holds c bs → deliver c rx ≡ filled rx bs
unfolding deliver
deliver_lem c rx bs h = rw (h.holds, h.counted) refl

pub extract_s1ap_hdr_lem :
    (p : Packet) (h : S1ap) (ds : Bytes)
    → S1apInRange h
    → Reads p (s1ap_image h ++ ds)
    → extract_s1ap_hdr p ≡ ok (record p { data_ptr = p.data_ptr + s1ap_hdr_len; s1ap_hdr = h })
unfolding extract_s1ap_hdr
extract_s1ap_hdr_lem p h ds g r =
    bind_ok _ (extract_bytes_lem p s1ap_hdr_len (s1ap_image h) ds (sym (length-s1ap_image h)) r)
      (rw (s1ap_of_image-s1ap_image h g) refl)

pub Left-s1ap_hdr :
    (p : Packet) (h : S1ap) (ds : Bytes) → Left p ds → Left (record p { s1ap_hdr = h }) ds
Left-s1ap_hdr p h ds l = record { reads = Reads-s1ap_hdr p h ds l.reads; ends = l.ends }
