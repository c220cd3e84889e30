-- ===== src/Upf/Handlers.antt =====
-- The N4 handlers of src/upf.cpp and `handle_s11_traffic` of src/upf_server.cpp.
use g_core_rest_sba.Base.{ℕ, ◌+◌, true, false, List, [], ◌∷◌, ◌==◌, if◌then◌else◌}
use g_core_rest_sba.Base.Words.{u32}
use g_core_rest_sba.Base.Map.{put, erase, has, get_or}
use g_core_rest_sba.Base.Stop.{Result, ok, zero_imsi, no_uectx, ◌>>=◌, ◌>>◌, stop_if}
use g_core_rest_sba.Packet.Buffer.{
  Packet, copy, extract_u8, extract_u32, extract_u64, extract_str, extract_int, extract_gtp_hdr,
}
use g_core_rest_sba.Packet.Items.{flag, word, text}
use g_core_rest_sba.Packet.Message.{build_gtp}
use g_core_rest_sba.Upf.State.{
  Upf, UeContext, new_ue, init_ue, ue, set_ue, ho_ue, set_ho_ue, update_itfid, update_itfid_ip,
  get_imsi, rem_itfid, rem_itfid_ip, rem_uectx,
}

-- A `sockaddr_in`: the address and the port of a requester.
abbrev pub SockAddr : Type 0
SockAddr = ℕ × ℕ

-- A handler answers with the new tables and the packets that it sent with `s11_server.snd`.
abbrev pub Outcome : Type 0
Outcome = Result (Upf × List (SockAddr × Packet))

abbrev reply : Upf → SockAddr → Result Packet → Outcome
reply u src r = do m ← r; ok (u, (src, m) ∷ [])

unfoldable pub handle_create_session : Upf → SockAddr → Packet → Outcome
unfolding new_ue init_ue ue set_ue update_itfid update_itfid_ip
handle_create_session u src pkt = do
  (s11_cteid_smf, p1) ← extract_u32 pkt
  (imsi, p2) ← extract_u64 p1
  (eps_bearer_id, p3) ← extract_u8 p2
  (apn_in_use, p4) ← extract_u64 p3
  (tai, p5) ← extract_u64 p4
  let s1_uteid_ul = s11_cteid_smf
  let s11_cteid_upf = s11_cteid_smf
  let ue_ip_addr = get_or (u.ip_addrs imsi) []
  let u0 : Upf = record u { ip_addrs = put u.ip_addrs imsi ue_ip_addr }
  u1 ← update_itfid u0 11 s11_cteid_upf imsi
  u2 ← update_itfid u1 1 s1_uteid_ul imsi
  u3 ← update_itfid_ip u2 0 0 ue_ip_addr imsi
  let c =
      init_ue (ue u3 imsi) ue_ip_addr tai apn_in_use eps_bearer_id s1_uteid_ul s11_cteid_smf
        s11_cteid_upf
  let u4 = set_ue u3 imsi (record c { tai = tai })
  reply u4 src (
      build_gtp (word s11_cteid_upf ∷ text ue_ip_addr ∷ word s1_uteid_ul ∷ []) 2 1 s11_cteid_smf p5)

unfoldable pub handle_modify_bearer : Upf → SockAddr → Packet → Outcome
unfolding new_ue ue set_ue get_imsi
handle_modify_bearer u src pkt = do
  imsi ← get_imsi u 11 pkt.gtp_hdr.teid
  stop_if (imsi == 0) zero_imsi
  (eps_bearer_id, p1) ← extract_u8 pkt
  (s1_uteid_dl, p2) ← extract_u32 p1
  (enodeb_ip_addr, p3) ← extract_str p2
  (enodeb_port, p4) ← extract_int p3
  let c : UeContext = record (ue u imsi) {
    s1_uteid_dl = s1_uteid_dl;
    enodeb_ip_addr = enodeb_ip_addr;
    enodeb_port = enodeb_port;
  }
  reply (set_ue u imsi c) src (build_gtp (flag true ∷ []) 2 2 c.s11_cteid_smf p4)

unfoldable pub handle_indirect_tunnel_setup : Upf → SockAddr → Packet → Outcome
unfolding new_ue ue set_ue ho_ue set_ho_ue get_imsi update_itfid
handle_indirect_tunnel_setup u src pkt = do
  imsi ← get_imsi u 11 pkt.gtp_hdr.teid
  (s1_uteid_dl, p1) ← extract_u32 pkt
  let u1 = set_ho_ue u imsi (record (ho_ue u imsi) { s1_uteid_dl = s1_uteid_dl })
  let c = ue u1 imsi
  let s1_uteid_ul = u32 (c.s11_cteid_smf + 1)
  u2 ← update_itfid (set_ue u1 imsi c) 1 s1_uteid_ul imsi
  reply u2 src (build_gtp (flag true ∷ word s1_uteid_ul ∷ []) 2 4 c.s11_cteid_smf p1)

unfoldable pub handle_handover_completion : Upf → SockAddr → Packet → Outcome
unfolding new_ue ue set_ue ho_ue get_imsi
handle_handover_completion u src pkt = do
  imsi ← get_imsi u 11 pkt.gtp_hdr.teid
  let c : UeContext = record (ue u imsi) { s1_uteid_dl = (ho_ue u imsi).s1_uteid_dl }
  let u1 : Upf = set_ue u imsi c
  let u2 : Upf = record u1 { ho_ue_ctx = erase u1.ho_ue_ctx (u32 imsi) }
  reply u2 src (build_gtp (flag true ∷ []) 2 5 c.s11_cteid_smf pkt)

unfoldable pub handle_indirect_tunnel_teardown : Upf → SockAddr → Packet → Outcome
unfolding new_ue ue set_ue get_imsi rem_itfid
handle_indirect_tunnel_teardown u src pkt = do
  imsi ← get_imsi u 11 pkt.gtp_hdr.teid
  let c = ue u imsi
  (s1_uteid_ul_indirect, p1) ← extract_u32 pkt
  u1 ← rem_itfid (set_ue u imsi c) 1 s1_uteid_ul_indirect
  reply u1 src (build_gtp (flag true ∷ []) 2 6 c.s11_cteid_smf p1)

unfoldable pub handle_detach : Upf → SockAddr → Packet → Outcome
unfolding new_ue ue get_imsi rem_itfid rem_itfid_ip rem_uectx
handle_detach u src pkt = do
  imsi ← get_imsi u 11 pkt.gtp_hdr.teid
  stop_if (imsi == 0) zero_imsi
  (eps_bearer_id, p1) ← extract_u8 pkt
  (tai, p2) ← extract_u64 p1
  stop_if (if has (u.ue_ctx imsi) then false else true) no_uectx
  let c = ue u imsi
  m ← build_gtp (flag true ∷ []) 2 3 c.s11_cteid_smf p2
  u1 ← rem_itfid u 11 c.s11_cteid_upf
  u2 ← rem_itfid u1 1 c.s1_uteid_ul
  u3 ← rem_itfid_ip u2 0 0 c.ip_addr
  ok (rem_uectx u3 imsi, (src, m) ∷ [])

-- The switch of `handle_s11_traffic`; the handlers take the packet by value, and the `default`
-- case sends nothing.
unfoldable pub dispatch_s11 : ℕ → Upf → SockAddr → Packet → Outcome
dispatch_s11 msg_type u src pkt =
    if msg_type == 1
    then copy pkt >>= handle_create_session u src
    else if msg_type == 2
    then copy pkt >>= handle_modify_bearer u src
    else if msg_type == 3
    then copy pkt >>= handle_detach u src
    else if msg_type == 4
    then copy pkt >>= handle_indirect_tunnel_setup u src
    else if msg_type == 5
    then copy pkt >>= handle_handover_completion u src
    else if msg_type == 6
    then copy pkt >>= handle_indirect_tunnel_teardown u src
    else ok (u, [])

-- One turn of its loop, from the received packet on.
unfoldable pub handle_s11 : Upf → SockAddr → Packet → Outcome
unfolding dispatch_s11
handle_s11 u src received = do
  pkt ← extract_gtp_hdr received
  dispatch_s11 pkt.gtp_hdr.msg_type u src pkt
