-- ===== src/Amf/Attach.antt =====
-- The first handlers of an attach in src/amf.cpp. Each takes the AMF and the state of its peers, and
-- answers with both and with the packets that it sends to the RAN.
use g_core_rest_sba.Base.{ℕ, ◌+◌, Bool, true, false, List, [], ◌∷◌, ◌==◌, if◌then◌else◌}
use g_core_rest_sba.Base.Words.{u32, u64}
use g_core_rest_sba.Base.Map.{put}
use g_core_rest_sba.Base.Stop.{Result, ok, zero_guti, ◌>>=◌, ◌>>◌, stop_if}
use g_core_rest_sba.Packet.Buffer.{Packet, extract_u64, extract_u16}
use g_core_rest_sba.Packet.Items.{long}
use g_core_rest_sba.Packet.Message.{build_s1ap}
use g_core_rest_sba.Telecom.Identity.{get_guti}
use g_core_rest_sba.Json.{Json}
use g_core_rest_sba.Rest.{send_and_receive}
use g_core_rest_sba.Amf.State.{
  Amf, UeContext, Peers, local, set_local, guti_of, rem_s1amf_id, rem_local,
}

module _ (J : Json) {S : Type 0} (net : Peers S J.Text) where
  -- The numbers of the new UE are entered before anything is asked. The local context is read for
  -- the network type only, which creates it.
  unfoldable pub handle_initial_attach : Amf → S → Packet → Result (Amf × S × List Packet)
  unfolding local set_local
  handle_initial_attach a s pkt = do
    (imsi, p1) ← extract_u64 pkt
    (tai, p2) ← extract_u64 p1
    (ksi_asme, p3) ← extract_u64 p2
    (nw_capability, p4) ← extract_u16 p3
    let enodeb_s1ap_ue_id = pkt.s1ap_hdr.enodeb_s1ap_ue_id
    guti ← get_guti a.amf_ids.guamfi imsi
    let ue_count = u64 (a.ue_count + 1)
    let mme_s1ap_ue_id = u32 ue_count
    let a1 : Amf = record a { ue_count = ue_count; s1amf_id = put a.s1amf_id mme_s1ap_ue_id guti }
    let q1 = J.set_num J.null "imsi" imsi
    let q2 = J.set_num q1 "guti" guti
    let q3 = J.set_num q2 "tai" tai
    let q4 = J.set_num q3 "enodeb_s1ap_ue_id" enodeb_s1ap_ue_id
    let q5 = J.set_num q4 "mme_s1ap_ue_id" mme_s1ap_ue_id
    let q6 = J.set_num q5 "nw_capability" nw_capability
    (s1, _, _) ← send_and_receive J (net.udm "/Nudm_UECM/UpdateInitialAttachInit") s q6 J.null
    let c = local a1 guti
    let r1 = J.set_num J.null "imsi" imsi
    let r2 = J.set_num r1 "num_autn_vectors" 1
    let r3 = J.set_num r2 "plmn_id" a1.amf_ids.plmn_id
    let r4 = J.set_num r3 "nw_type" c.nw_type
    (s2, _, res) ← send_and_receive J (net.ausf "/Nausf_UEAuthentication/Authenticate") s1 r4 J.null
    let w1 = J.set_num J.null "guti" guti
    let w2 = J.set_num w1 "xres" (J.num res "xres")
    let w3 = J.set_num w2 "k_asme" (J.num res "k_asme")
    let w4 = J.set_num w3 "ksi_asme" 1
    (s3, _, _) ← send_and_receive J (net.udm "/Nudm_UECM/UpdateInitialAttach") s2 w4 J.null
    m ←
        build_s1ap (long (J.num res "autn_num") ∷ long (J.num res "rand_num") ∷ long ksi_asme ∷ [])
          1 enodeb_s1ap_ue_id mme_s1ap_ue_id p4
    ok (set_local a1 guti c, s3, m ∷ [])

  -- Whether the UE is authenticated; if not, its two entries go.
  unfoldable pub handle_autn : Amf → S → Packet → Result (Amf × S × Bool)
  handle_autn a s pkt = do
    let guti = guti_of a pkt
    stop_if (guti == 0) zero_guti
    (res, p1) ← extract_u64 pkt
    let req = J.set_num J.null "guti" guti
    (s1, _, reply) ← send_and_receive J (net.udm "/Nudm_UECM/UECtx/SetAuth") s req J.null
    if res == J.num reply "xres"
        then ok (a, s1, true)
        else ok (rem_local (rem_s1amf_id a p1.s1ap_hdr.mme_s1ap_ue_id) guti, s1, false)

  unfoldable pub set_crypt_context : S → ℕ → Result S
  set_crypt_context s guti = do
    let req = J.set_num J.null "guti" guti
    (s1, _, _) ← send_and_receive J (net.udm "/Nudm_UECM/UECtx/SetCrypt") s req J.null
    ok s1

  -- The integrity key is computed once more in the local context.
  unfoldable pub set_integrity_context : Amf → S → ℕ → Result (Amf × S)
  unfolding local set_local
  set_integrity_context a s guti = do
    let req = J.set_num J.null "guti" guti
    (s1, _, _) ← send_and_receive J (net.udm "/Nudm_UECM/UECtx/SetIntegrity") s req J.null
    let c : UeContext = record (local a guti) { nas_int_algo = 1 }
    let key = u64 (c.k_asme + c.nas_int_algo + c.count + c.bearer + c.dir)
    ok (set_local a guti (record c { k_nas_int = key }), s1)
