-- ===== src/Amf/Handover.antt =====
-- The handover of src/amf.cpp. Each handler reads the local context of the UE, which is created if it
-- is not there; none tests the GUTI. The AMF speaks to the UPF over a datagram client of its own.
use g_core_rest_sba.Base.{List, [], ◌∷◌, if◌then◌else◌}
use g_core_rest_sba.Base.Stop.{Result, ok, ◌>>=◌}
use g_core_rest_sba.Packet.Buffer.{
  Packet, copy, extract_gtp_hdr, extract_bool, extract_int, extract_u16, extract_u32,
}
use g_core_rest_sba.Packet.Items.{flag, half, word, int}
use g_core_rest_sba.Packet.Message.{build_gtp, build_s1ap}
use g_core_rest_sba.Net.Udp.{N4, rcv}
use g_core_rest_sba.Amf.State.{Amf, Sent, to_source, to_target, local, set_local, guti_of}

-- What the handler of the source eNodeB gets of the UE's numbers, and the uplink TEID of the local
-- context.
unfoldable pub request_target_ran : Amf → Packet → Result (Amf × List Sent)
unfolding local set_local
request_target_ran a pkt = do
  (handover_type, p1) ← extract_int pkt
  (s_enb, p2) ← extract_u16 p1
  (t_enb, p3) ← extract_u16 p2
  (enodeb_s1ap_ue_id, p4) ← extract_u32 p3
  (mme_s1ap_ue_id, p5) ← extract_u32 p4
  let guti = guti_of a pkt
  let c = local a guti
  m ←
      build_s1ap
        (half t_enb ∷ word enodeb_s1ap_ue_id ∷ word mme_s1ap_ue_id ∷ word c.s1_uteid_ul ∷ []) 7
        pkt.s1ap_hdr.enodeb_s1ap_ue_id pkt.s1ap_hdr.mme_s1ap_ue_id p5
  ok (set_local a guti c, to_target m ∷ [])

unfoldable pub handle_handover : Amf → Packet → Result (Amf × List Sent)
handle_handover a pkt = do q ← copy pkt; request_target_ran a q

module _ {U : Type 0} (upf : N4 U) where
  unfoldable pub setup_indirect_tunnel : Amf → U → Packet → Result (Amf × U × List Sent)
  unfolding local set_local
  setup_indirect_tunnel a u pkt = do
    (s1_uteid_dl_ho, p1) ← extract_u32 pkt
    let guti = guti_of a pkt
    let c = local a guti
    m ← build_gtp (word s1_uteid_dl_ho ∷ []) 2 4 c.s11_cteid_upf p1
    (u1, back) ← upf u m
    p2 ← extract_gtp_hdr (rcv m back)
    (res, p3) ← extract_bool p2
    (s1_uteid_ul, p4) ← extract_u32 p3
    if res
        then (do
          n ←
              build_s1ap (word s1_uteid_ul ∷ []) 8 pkt.s1ap_hdr.enodeb_s1ap_ue_id
                pkt.s1ap_hdr.mme_s1ap_ue_id p4
          ok (set_local a guti c, u1, to_source n ∷ []))
        else ok (set_local a guti c, u1, [])

  -- The one item of the request is the `int` 1.
  unfoldable pub handle_handover_completion : Amf → U → Packet → Result (Amf × U × List Sent)
  unfolding local set_local
  handle_handover_completion a u pkt = do
    let guti = guti_of a pkt
    let c = local a guti
    m ← build_gtp (int 1 ∷ []) 2 5 c.s11_cteid_upf pkt
    (u1, back) ← upf u m
    p1 ← extract_gtp_hdr (rcv m back)
    (res, p2) ← extract_bool p1
    if res
        then (do
          n ←
              build_s1ap (flag res ∷ []) 9 pkt.s1ap_hdr.enodeb_s1ap_ue_id
                pkt.s1ap_hdr.mme_s1ap_ue_id p2
          ok (set_local a guti c, u1, to_source n ∷ []))
        else ok (set_local a guti c, u1, [])

  unfoldable pub teardown_indirect_tunnel : Amf → U → Packet → Result (Amf × U × List Sent)
  unfolding local set_local
  teardown_indirect_tunnel a u pkt = do
    (s1_uteid_ul_ho, p1) ← extract_u32 pkt
    let guti = guti_of a pkt
    let c = local a guti
    m ← build_gtp (word s1_uteid_ul_ho ∷ []) 2 6 c.s11_cteid_upf p1
    (u1, back) ← upf u m
    p2 ← extract_gtp_hdr (rcv m back)
    (res, _) ← extract_bool p2
    ok (set_local a guti c, u1, [])
