-- ===== src/Ran/UserPlane.antt =====
-- User data between the tun device of src/ran.cpp and the UPF of src/upf.cpp, both ways.
use g_core_rest_sba.Base.{
  ℕ, ◌+◌, ◌^◌, ◌<◌, ◌≤◌, ◌≡◌, refl, sym, ap, ◌∙◌, some, ◌++◌, Bytes, length, length-append, arith,
  le→leb, when,
}
use g_core_rest_sba.Base.Words.{u16}
use g_core_rest_sba.Base.Stop.{ok, bind_ok, ◌>>=◌}
use g_core_rest_sba.Packet.Header.{
  Gtp, GtpInRange, init_gtp, gtp_image, gtp_of_image-gtp_image, length-gtp_image, gtp_hdr_len,
}
use g_core_rest_sba.Packet.Buffer.{
  Packet, buf_size, copy, deliver, prepend_gtp_hdr, extract_gtp_hdr,
}
use g_core_rest_sba.Packet.Contents.{extract_bytes_lem, take-block}
use g_core_rest_sba.Packet.Message.{Reads-gtp_hdr}
use g_core_rest_sba.Security.Filled.{
  Holds, Left, Left-data_ptr, deliver_lem, filled, filled-Holds, filled-Left, prepend_lem,
  prepended, prepended-Holds, truncate_lem,
}
use g_core_rest_sba.Upf.UserPlane.{Datagram, handle_s1, tunnel}
use g_core_rest_sba.Upf.UserPlane as UserPlane
use g_core_rest_sba.Ran.Traffic.{
  UplinkInfo, TrafficMonitor, get_src_ip_addr, uplink_to, handle_uplink_udata,
  handle_downlink_udata,
}

-- The header that a packet of user data gets.
abbrev tunnel_hdr : Packet → ℕ → ℕ → Gtp
tunnel_hdr p t teid = record p.gtp_hdr {
  msg_type = t;
  msg_len = u16 p.len;
  teid = teid;
  flags = 48;
}

-- A packet in a tunnel: its header, and its bytes.
abbrev tunnelled : Packet → ℕ → ℕ → Packet
tunnelled p t teid =
    let h = tunnel_hdr p t teid in prepended (gtp_image h) (record p { gtp_hdr = h })

tunnel_hdr-GtpInRange :
    (p : Packet) (t teid : ℕ)
    → GtpInRange p.gtp_hdr
    → t < 2 ^ 8
    → teid < 2 ^ 32
    → GtpInRange (tunnel_hdr p t teid)
tunnel_hdr-GtpInRange p t teid g ht hteid = record {
  flags = omega arith;
  pad_1 = g.pad_1;
  msg_len = omega arith;
  field_1 = g.field_1;
  field_2 = g.field_2;
  field_3 = g.field_3;
  msg_type = ht;
  pad_10 = g.pad_10;
  teid = hteid;
}

-- One end puts a packet into the tunnel.
enters :
    (p : Packet) (t teid : ℕ)
    → gtp_hdr_len + p.len ≤ buf_size
    → prepend_gtp_hdr 1 t p.len teid p ≡ ok (tunnelled p t teid)
unfolding prepend_gtp_hdr init_gtp
enters p t teid room =
    let h = tunnel_hdr p t teid in
    prepend_lem (record p { gtp_hdr = h }) (gtp_image h) (omega (arith, length-gtp_image h))

-- What the other end has when it has read the header.
abbrev come : Packet → Gtp → Bytes → Packet
come rx h bs = record (filled rx (gtp_image h ++ bs)) { data_ptr = 0 + gtp_hdr_len; gtp_hdr = h }

comes :
    (p rx : Packet) (t teid : ℕ) (bs : Bytes)
    → Holds p bs
    → GtpInRange p.gtp_hdr
    → t < 2 ^ 8
    → teid < 2 ^ 32
    → gtp_hdr_len + length bs ≤ buf_size
    → (extract_gtp_hdr (deliver (tunnelled p t teid) rx) ≡ ok (come rx (tunnel_hdr p t teid) bs))
      × Left (come rx (tunnel_hdr p t teid) bs) bs
unfolding extract_gtp_hdr
comes p rx t teid bs held g ht hteid room =
    let h = tunnel_hdr p t teid in
    let whole : Bytes = gtp_image h ++ bs in
    let holds : Holds (tunnelled p t teid) whole =
      prepended-Holds (record p { gtp_hdr = h }) (gtp_image h) bs
        (record { counted = held.counted; holds = held.holds }) in
    let l0 : Left (filled rx whole) whole =
      filled-Left rx whole (omega (arith, length-append (gtp_image h) bs, length-gtp_image h)) in
    let l1 =
      Left-data_ptr (filled rx whole) gtp_hdr_len (gtp_image h) bs (sym (length-gtp_image h)) l0 in
    (
      ap extract_gtp_hdr (deliver_lem (tunnelled p t teid) rx whole holds)
          ∙ bind_ok _
              (extract_bytes_lem (filled rx whole) gtp_hdr_len (gtp_image h) bs
                (sym (length-gtp_image h)) l0.reads)
              (rw (gtp_of_image-gtp_image h (tunnel_hdr-GtpInRange p t teid g ht hteid)) refl),
      record { reads = Reads-gtp_hdr _ h bs l1.reads; ends = l1.ends },
    )

copied_whole :
    (rx : Packet) (h : Gtp) (ds : Bytes) (n : ℕ)
    → length ds ≤ buf_size
    → copy (record (filled rx ds) { data_ptr = n; gtp_hdr = h })
      ≡ ok (record (filled rx ds) { data_ptr = n; gtp_hdr = h })
unfolding copy
copied_whole rx h ds n room =
    when _ (le→leb (length ds) buf_size room) (rw (take-block (length ds) ds refl) refl)

-- A packet of user data that fits the buffer with a tunnel header and whose source address has
-- uplink information goes to the address and port of that information; the UPF, in any packet,
-- takes it from the tunnel and sends exactly its bytes to the sink.
pub uplink_lem :
    (ntop : Bytes → Bytes) (t : TrafficMonitor) (i : UplinkInfo) (pkt rx : Packet)
    (bs ip sink_ip : Bytes) (sink_port : ℕ)
    → get_src_ip_addr ntop pkt ≡ ok ip
    → t.uplink_info ip ≡ some i
    → i.s1_uteid_ul < 2 ^ 32
    → Holds pkt bs
    → GtpInRange pkt.gtp_hdr
    → gtp_hdr_len + length bs ≤ buf_size
    → (m : Packet) × (q : Packet) × (handle_uplink_udata ntop t pkt
        ≡ ok (some (i.sgw_s1_ip_addr, i.sgw_s1_port, m)))
      × (handle_s1 sink_ip sink_port (deliver m rx) ≡ ok (some (sink_ip, sink_port, q)))
      × Holds q bs
unfolding handle_uplink_udata handle_s1 UserPlane.handle_uplink_udata
uplink_lem ntop t i pkt rx bs ip sink_ip sink_port from known low held g room =
    let teid = i.s1_uteid_ul in
    let h = tunnel_hdr pkt 1 teid in
    let (e, left) = comes pkt rx 1 teid bs held g (omega arith) low room in
    let q : Packet = come rx h bs in
    (
      tunnelled pkt 1 teid,
      filled q bs,
      bind_ok _ from (
          ap (uplink_to pkt) known
          ∙ bind_ok _ (enters pkt 1 teid (omega (arith, held.counted))) refl),
      bind_ok _ e (
          bind_ok _
            (copied_whole rx h (gtp_image h ++ bs) (0 + gtp_hdr_len)
              (omega (arith, length-append (gtp_image h) bs, length-gtp_image h)))
            (bind_ok _ (bind_ok _ (truncate_lem q bs left) refl) refl)),
      filled-Holds q bs,
    )

-- The downlink through the tunnel, with the TEID that the RAN reads.
pub downlink_tunnelled :
    (pkt rx : Packet) (bs ip : Bytes) (teid port : ℕ)
    → Left pkt bs
    → teid < 2 ^ 32
    → GtpInRange pkt.gtp_hdr
    → gtp_hdr_len + length bs ≤ buf_size
    → (m : Packet) × (q : Packet) × (tunnel pkt (some (teid, ip, port)) ≡ ok (some (ip, port, m)))
      × ((extract_gtp_hdr (deliver m rx) >>= λ x. ok x.gtp_hdr.teid) ≡ ok teid)
      × (handle_downlink_udata (deliver m rx) ≡ ok q)
      × Holds q bs
unfolding handle_downlink_udata
downlink_tunnelled pkt rx bs ip teid port left low g room =
    let p : Packet = filled pkt bs in
    let h = tunnel_hdr p 2 teid in
    let (e, rest) = comes p rx 2 teid bs (filled-Holds pkt bs) g (omega arith) low room in
    let q : Packet = come rx h bs in
    (
      tunnelled p 2 teid,
      filled q bs,
      bind_ok _ (truncate_lem pkt bs left) (bind_ok _ (enters p 2 teid room) refl),
      bind_ok _ e refl,
      bind_ok _ e (truncate_lem q bs rest),
      filled-Holds q bs,
    )
