-- ===== src/Packet/Message.antt =====
-- A message from one network function to another, as every handler builds it: `clear_pkt`, the
-- items, one header; and as the receiver takes it apart.
use g_core_rest_sba.Base.{
  ℕ, ◌+◌, ◌^◌, ◌≤◌, ◌<◌, ◌≡◌, refl, sym, subst, ◌∙◌, List, [], ◌++◌, append-nil, map, arith, Bytes,
  false, length, length-append, ltb, if◌then◌else◌,
}
use g_core_rest_sba.Base.Words.{u16}
use g_core_rest_sba.Base.Stop.{Result, ok, ◌>>=◌, bind_ok}
use g_core_rest_sba.Packet.Header.{
  Gtp, S1ap, GtpInRange, S1apInRange, init_gtp, init_s1ap, gtp_image, s1ap_image,
  gtp_of_image-gtp_image, s1ap_of_image-s1ap_image, length-gtp_image, length-s1ap_image,
  gtp_hdr_len, s1ap_hdr_len,
}
use g_core_rest_sba.Packet.Buffer.{
  Packet, buf_size, clear_pkt, prepend_gtp_hdr, prepend_s1ap_hdr, extract_gtp_hdr, extract_s1ap_hdr,
  deliver,
}
use g_core_rest_sba.Packet.Contents.{
  Builds, Reads, clear_pkt-Builds, prepend_item-Builds, deliver-Reads, extract_bytes-Reads,
}
use g_core_rest_sba.Net.Stream.{is_closed, is_closed_lem}
use g_core_rest_sba.Packet.Items.{
  Item, Kind, kind, images, AllInRange, append_items, extract_items, append_items-Builds,
  extract_items-Reads, SameHeaders, append_items-SameHeaders,
}

-- `clear_pkt(); append_item(...)...; prepend_gtp_hdr(protocol, msg_type, pkt.len, teid)`.
abbrev pub build_gtp : List Item → ℕ → ℕ → ℕ → Packet → Result Packet
build_gtp is protocol msg_type teid p = do
  q ← append_items is (clear_pkt p)
  prepend_gtp_hdr protocol msg_type q.len teid q

abbrev pub build_s1ap : List Item → ℕ → ℕ → ℕ → Packet → Result Packet
build_s1ap is msg_type enodeb mme p = do
  q ← append_items is (clear_pkt p)
  prepend_s1ap_hdr msg_type q.len enodeb mme q

-- `extract_gtp_hdr()`, and the items: the type, the TEID and what follows.
abbrev pub parse_gtp : List Kind → Packet → Result (ℕ × ℕ × List Item)
parse_gtp ks p = do
  q ← extract_gtp_hdr p
  (is, r) ← extract_items ks q
  ok (q.gtp_hdr.msg_type, q.gtp_hdr.teid, is)

abbrev pub parse_s1ap : List Kind → Packet → Result (ℕ × ℕ × ℕ × List Item)
parse_s1ap ks p = do
  q ← extract_s1ap_hdr p
  (is, r) ← extract_items ks q
  ok (q.s1ap_hdr.msg_type, q.s1ap_hdr.enodeb_s1ap_ue_id, q.s1ap_hdr.mme_s1ap_ue_id, is)

-- The items of a message, appended to a cleared packet.
pub built :
    (p : Packet) (is : List Item)
    → AllInRange is
    → length (images is) ≤ buf_size
    → (q : Packet) × (append_items is (clear_pkt p) ≡ ok q) × Builds q (images is) × SameHeaders p q
unfolding clear_pkt
built p is clean room =
    let (q, e, b) =
      append_items-Builds (clear_pkt p) [] is (clear_pkt-Builds p) clean (omega arith) in
    (q, e, b, append_items-SameHeaders is (clear_pkt p) q e)

-- A header in front of built contents, and how it is read back.
gtp_Reads :
    (p : Packet) (h : Gtp) (ds : Bytes)
    → GtpInRange h
    → Reads p (gtp_image h ++ ds)
    → (q : Packet) × (extract_gtp_hdr p ≡ ok (record q { gtp_hdr = h })) × Reads q ds
unfolding extract_gtp_hdr
gtp_Reads p h ds g r =
    let (q, e, s, k) =
      extract_bytes-Reads p gtp_hdr_len (gtp_image h) ds (sym (length-gtp_image h)) r in
    (q, bind_ok _ e (rw (gtp_of_image-gtp_image h g)), s)

s1ap_Reads :
    (p : Packet) (h : S1ap) (ds : Bytes)
    → S1apInRange h
    → Reads p (s1ap_image h ++ ds)
    → (q : Packet) × (extract_s1ap_hdr p ≡ ok (record q { s1ap_hdr = h })) × Reads q ds
unfolding extract_s1ap_hdr
s1ap_Reads p h ds g r =
    let (q, e, s, k) =
      extract_bytes-Reads p s1ap_hdr_len (s1ap_image h) ds (sym (length-s1ap_image h)) r in
    (q, bind_ok _ e (rw (s1ap_of_image-s1ap_image h g)), s)

pub Reads-gtp_hdr :
    (p : Packet) (h : Gtp) (ds : Bytes) → Reads p ds → Reads (record p { gtp_hdr = h }) ds
Reads-gtp_hdr p h ds r = record {
  sized = r.sized;
  within = r.within;
  fits = r.fits;
  tail = r.tail;
  ahead = r.ahead;
}

pub Reads-s1ap_hdr :
    (p : Packet) (h : S1ap) (ds : Bytes) → Reads p ds → Reads (record p { s1ap_hdr = h }) ds
Reads-s1ap_hdr p h ds r = record {
  sized = r.sized;
  within = r.within;
  fits = r.fits;
  tail = r.tail;
  ahead = r.ahead;
}

parse_gtp-Reads :
    (p : Packet) (h : Gtp) (is : List Item)
    → GtpInRange h
    → AllInRange is
    → Reads p (gtp_image h ++ images is)
    → parse_gtp (map kind is) p ≡ ok (h.msg_type, h.teid, is)
parse_gtp-Reads p h is g clean r =
    let (q, e, s) = gtp_Reads p h (images is) g r in
    let (q', e', s', k') =
      extract_items-Reads (record q { gtp_hdr = h }) is [] clean
        (rw append-nil (Reads-gtp_hdr q h (images is) s)) in
    bind_ok _ e (bind_ok _ e' refl)

parse_s1ap-Reads :
    (p : Packet) (h : S1ap) (is : List Item)
    → S1apInRange h
    → AllInRange is
    → Reads p (s1ap_image h ++ images is)
    → parse_s1ap (map kind is) p ≡ ok (h.msg_type, h.enodeb_s1ap_ue_id, h.mme_s1ap_ue_id, is)
parse_s1ap-Reads p h is g clean r =
    let (q, e, s) = s1ap_Reads p h (images is) g r in
    let (q', e', s', k') =
      extract_items-Reads (record q { s1ap_hdr = h }) is [] clean
        (rw append-nil (Reads-s1ap_hdr q h (images is) s)) in
    bind_ok _ e (bind_ok _ e' refl)

init_gtp_lem :
    (h : Gtp) (n t teid : ℕ)
    → init_gtp h 2 t n teid
      ≡ ok (record h {
        msg_type = t;
        msg_len = n;
        teid = teid;
        flags = if ltb 0 teid then 72 else 64;
      })
unfolding init_gtp
init_gtp_lem h n t teid = refl

init_gtp-GtpInRange :
    (h : Gtp) (n t teid : ℕ)
    → GtpInRange h
    → t < 2 ^ 8
    → teid < 2 ^ 32
    → GtpInRange (record h {
      msg_type = t;
      msg_len = u16 n;
      teid = teid;
      flags = if ltb 0 teid then 72 else 64;
    })
init_gtp-GtpInRange h n t teid g gt gteid = ground arith

-- What a receiver that has extracted the header of a GTP message holds.
pub record Arrived (q : Packet) (t teid : ℕ) (is : List Item) : Type 0 where
  pub is_type : q.gtp_hdr.msg_type ≡ t
  pub is_teid : q.gtp_hdr.teid ≡ teid
  pub in_range : GtpInRange q.gtp_hdr
  pub reads : Reads q (images is)

module _ (p : Packet) (is : List Item) (t teid : ℕ) (g : GtpInRange p.gtp_hdr)
    (clean : AllInRange is) (gt : t < 2 ^ 8) (gteid : teid < 2 ^ 32)
    (room : gtp_hdr_len + length (images is) ≤ buf_size) where
  -- The header that is put in front, and the packet with it.
  built_gtp :
      (c : Packet) × (h : Gtp) × (build_gtp is 2 t teid p ≡ ok c)
      × Builds c (gtp_image h ++ images is)
      × GtpInRange h
      × (h.msg_type ≡ t)
      × (h.teid ≡ teid)
  unfolding prepend_gtp_hdr
  built_gtp =
      let (a, e, b, same) = built p is clean (omega arith) in
      let h : Gtp = record a.gtp_hdr {
        msg_type = t;
        msg_len = u16 a.len;
        teid = teid;
        flags = if ltb 0 teid then 72 else 64;
      } in
      let (c, f, d) =
        prepend_item-Builds (record a { gtp_hdr = h }) (images is) (gtp_image h)
          (record {
            sized = b.sized;
            at_end = b.at_end;
            counted = b.counted;
            fits = b.fits;
            holds = b.holds;
          })
          (omega (arith, length-gtp_image h)) in
      (
        c,
        h,
        bind_ok _ e (bind_ok _ (init_gtp_lem a.gtp_hdr (u16 a.len) t teid) f),
        d,
        init_gtp-GtpInRange a.gtp_hdr a.len t teid (subst GtpInRange (sym same.0) g) gt gteid,
        refl,
        refl,
      )

  -- A GTP message with a type and a TEID in range, built from items in range that fit the buffer,
  -- in a packet whose header is in range, sent and received in any packet, is parsed to its type,
  -- its TEID and its items. A text in range has no zero byte.
  pub gtp_round_trip :
      (q : Packet)
      → (build_gtp is 2 t teid p >>= λ m. parse_gtp (map kind is) (deliver m q)) ≡ ok (t, teid, is)
  gtp_round_trip q =
      let (c, h, e, d, hg, et, eteid) = built_gtp in
      bind_ok _ e (
        parse_gtp-Reads (deliver c q) h is hg clean (deliver-Reads c q (gtp_image h ++ images is) d)
        ∙ (rw (et, eteid)))

  pub gtp_arrives :
      (rx : Packet)
      → (c : Packet) × (q : Packet) × (build_gtp is 2 t teid p ≡ ok c)
        × (extract_gtp_hdr (deliver c rx) ≡ ok q)
        × Arrived q t teid is
  gtp_arrives rx =
      let (c, h, e, d, hg, et, eteid) = built_gtp in
      let (q, f, s) =
        gtp_Reads (deliver c rx) h (images is) hg
          (deliver-Reads c rx (gtp_image h ++ images is) d) in
      (
        c,
        record q { gtp_hdr = h },
        e,
        f,
        record {
          is_type = et;
          is_teid = eteid;
          in_range = hg;
          reads = Reads-gtp_hdr q h (images is) s;
        },
      )

-- What a receiver that has extracted the header of an S1AP message holds.
pub record ArrivedS1 (q : Packet) (t enodeb mme : ℕ) (is : List Item) : Type 0 where
  pub is_type : q.s1ap_hdr.msg_type ≡ t
  pub is_enodeb : q.s1ap_hdr.enodeb_s1ap_ue_id ≡ enodeb
  pub is_mme : q.s1ap_hdr.mme_s1ap_ue_id ≡ mme
  pub in_range : S1apInRange q.s1ap_hdr
  pub reads : Reads q (images is)

module _ (p : Packet) (is : List Item) (t enodeb mme : ℕ) (g : S1apInRange p.s1ap_hdr)
    (clean : AllInRange is) (gt : t < 2 ^ 8) (ge : enodeb < 2 ^ 32) (gm : mme < 2 ^ 32)
    (room : s1ap_hdr_len + length (images is) ≤ buf_size) where
  built_s1ap :
      (c : Packet) × (h : S1ap) × (build_s1ap is t enodeb mme p ≡ ok c)
      × Builds c (s1ap_image h ++ images is)
      × S1apInRange h
      × (h.msg_type ≡ t)
      × (h.enodeb_s1ap_ue_id ≡ enodeb)
      × (h.mme_s1ap_ue_id ≡ mme)
  unfolding prepend_s1ap_hdr init_s1ap
  built_s1ap =
      let (a, e, b, same) = built p is clean (omega arith) in
      let h : S1ap = record a.s1ap_hdr {
        msg_type = t;
        msg_len = u16 a.len;
        enodeb_s1ap_ue_id = enodeb;
        mme_s1ap_ue_id = mme;
      } in
      let old : S1apInRange a.s1ap_hdr = subst S1apInRange (sym same.1) g in
      let hg : S1apInRange h = record {
        msg_len = omega arith;
        msg_type = gt;
        pad_3 = old.pad_3;
        enodeb_s1ap_ue_id = ge;
        mme_s1ap_ue_id = gm;
      } in
      let (c, f, d) =
        prepend_item-Builds (record a { s1ap_hdr = h }) (images is) (s1ap_image h)
          (record {
            sized = b.sized;
            at_end = b.at_end;
            counted = b.counted;
            fits = b.fits;
            holds = b.holds;
          })
          (omega (arith, length-s1ap_image h)) in
      (c, h, bind_ok _ e f, d, hg, refl, refl, refl)

  -- An S1AP message with a type and two ids in range, built from items in range that fit the
  -- buffer, in a packet whose header is in range, sent and received in any packet, is parsed to
  -- its type, the two ids of the UE and its items. A text in range has no zero byte.
  pub s1ap_round_trip :
      (q : Packet)
      → (build_s1ap is t enodeb mme p >>= λ m. parse_s1ap (map kind is) (deliver m q))
        ≡ ok (t, enodeb, mme, is)
  s1ap_round_trip q =
      let (c, h, e, d, hg, et, ee, em) = built_s1ap in
      bind_ok _ e (
        parse_s1ap-Reads (deliver c q) h is hg clean
          (deliver-Reads c q (s1ap_image h ++ images is) d)
        ∙ (rw (et, ee, em)))

  pub s1ap_arrives :
      (rx : Packet)
      → (c : Packet) × (q : Packet) × (build_s1ap is t enodeb mme p ≡ ok c)
        × (extract_s1ap_hdr (deliver c rx) ≡ ok q)
        × ArrivedS1 q t enodeb mme is
        × (is_closed c.len ≡ false)
  s1ap_arrives rx =
      let (c, h, e, d, hg, et, ee, em) = built_s1ap in
      let (q, f, s) =
        s1ap_Reads (deliver c rx) h (images is) hg
          (deliver-Reads c rx (s1ap_image h ++ images is) d) in
      (
        c,
        record q { s1ap_hdr = h },
        e,
        f,
        record {
          is_type = et;
          is_enodeb = ee;
          is_mme = em;
          in_range = hg;
          reads = Reads-s1ap_hdr q h (images is) s;
        },
        is_closed_lem c.len
            (omega
              (arith, d.counted, length-append (s1ap_image h) (images is), length-s1ap_image h))
            (omega (arith, d.counted, d.fits)),
      )
