-- ===== src/Ran/Handover.antt =====
-- The handover of src/ran.cpp, at the source and at the target eNodeB.
use g_core_rest_sba.Base.{[], ◌∷◌}
use g_core_rest_sba.Base.Stop.{Result, ok, ◌>>=◌}
use g_core_rest_sba.Packet.Buffer.{Packet, extract_u16, extract_u32}
use g_core_rest_sba.Packet.Items.{half, word, int}
use g_core_rest_sba.Packet.Message.{build_s1ap}
use g_core_rest_sba.Ran.Context.{RanContext}
use g_core_rest_sba.Ran.Session.{Ran}

-- The id of the source that is sent is the member of `Ran`, not the one of the context just set.
unfoldable pub initiate_handover : Ran → Packet → Result (Ran × Packet)
initiate_handover r pkt = do
  let c : RanContext = record (r.ran_ctx) { enodeb_id = 1; handover_target_enodeb_id = 2 }
  m ←
      build_s1ap
        (int 0
          ∷ half r.enodeb_id
          ∷ half c.handover_target_enodeb_id
          ∷ word c.enodeb_s1ap_ue_id
          ∷ word c.mme_s1ap_ue_id
          ∷ [])
        7 c.enodeb_s1ap_ue_id c.mme_s1ap_ue_id pkt
  ok (record r { handover_state = 1; ran_ctx = c }, m)

-- The target takes the UE's numbers over and offers its own as the downlink TEID.
unfoldable pub handle_handover : Ran → Packet → Result (Ran × Packet)
handle_handover r pkt = do
  (t_enb, p1) ← extract_u16 pkt
  (enodeb_s1ap_ue_id, p2) ← extract_u32 p1
  (mme_s1ap_ue_id, p3) ← extract_u32 p2
  (s1_uteid_ul, p4) ← extract_u32 p3
  let c : RanContext = record (r.ran_ctx) {
    enodeb_s1ap_ue_id = enodeb_s1ap_ue_id;
    mme_s1ap_ue_id = mme_s1ap_ue_id;
    s1_uteid_ul = s1_uteid_ul;
  }
  m ← build_s1ap (word enodeb_s1ap_ue_id ∷ []) 8 enodeb_s1ap_ue_id mme_s1ap_ue_id p4
  ok (record r { handover_state = 3; ran_ctx = c }, m)

unfoldable pub indirect_tunnel_complete : Ran → Packet → Result Ran
indirect_tunnel_complete r pkt = do
  (teid, _) ← extract_u32 pkt
  ok (record r { handover_state = 4; ran_ctx = record (r.ran_ctx) { indirect_s1_uteid_ul = teid } })

unfoldable pub complete_handover : Ran → Packet → Result Packet
complete_handover r pkt = build_s1ap [] 9 r.ran_ctx.enodeb_s1ap_ue_id r.ran_ctx.mme_s1ap_ue_id pkt

unfoldable pub request_tear_down : Ran → Packet → Result (Ran × Packet)
request_tear_down r pkt = do
  let c : RanContext = record (r.ran_ctx) { s1_uteid_ul = 0 }
  m ← build_s1ap (word c.indirect_s1_uteid_ul ∷ []) 10 c.enodeb_s1ap_ue_id c.mme_s1ap_ue_id pkt
  ok (record r { ran_ctx = c }, m)
