-- ===== src/Amf/Bearer.antt =====
-- The rest of a session in src/amf.cpp: the end of the attach, the bearer, and the detach.
use g_core_rest_sba.Base.{true, false, not, List, [], ◌∷◌, ◌==◌, if◌then◌else◌}
use g_core_rest_sba.Base.Words.{u8}
use g_core_rest_sba.Base.Stop.{Result, ok, zero_guti, hmac_failure, ◌>>=◌, ◌>>◌, stop_if}
use g_core_rest_sba.Packet.Buffer.{Packet, extract_u8, extract_u32, extract_u64}
use g_core_rest_sba.Packet.Items.{flag}
use g_core_rest_sba.Json.{Json, as_uint, bool_member}
use g_core_rest_sba.Rest.{Routes, send_and_receive}
use g_core_rest_sba.Security.Openssl.{Openssl}
use g_core_rest_sba.Security.Crypt.{hmac_check, dec, build_nas}
use g_core_rest_sba.Amf.State.{Amf, Peers, local, set_local, guti_of, rem_s1amf_id, rem_local}

module _ (J : Json) (O : Openssl) {S : Type 0} (net : Peers S J.Text) (smf : Routes S J.Text) where
  unfoldable pub handle_attach_complete : Amf → S → Packet → Result S
  handle_attach_complete a s pkt = do
    let guti = guti_of a pkt
    stop_if (guti == 0) zero_guti
    let req = J.set_num J.null "guti" guti
    (s1, _, v) ← send_and_receive J (net.udm "/Nudm_UECM/UECtx/HandleAttachComplete") s req J.null
    (intact, p1) ← hmac_check O pkt (J.num v "k_nas_int")
    stop_if (not intact) hmac_failure
    p2 ← dec O p1 (J.num v "k_nas_enc")
    (eps_bearer_id, p3) ← extract_u8 p2
    (s1_uteid_dl, _) ← extract_u32 p3
    let upd = J.set_num (J.set_num J.null "guti" guti) "s1_uteid_dl" s1_uteid_dl
    (s2, _, _) ← send_and_receive J (net.udm "/Nudm_UECM/UECtx/UpdateAttachComplete") s1 upd J.null
    ok s2

  -- The UE is connected when the SMF says so.
  unfoldable pub handle_modify_bearer : Amf → S → Packet → Result (Amf × S)
  unfolding local set_local
  handle_modify_bearer a s pkt = do
    let guti = guti_of a pkt
    stop_if (guti == 0) zero_guti
    let req = J.set_num J.null "guti" guti
    (s1, _, v) ← send_and_receive J (net.udm "/Nudm_UECM/UECtx/HandleModifyBearer") s req J.null
    eps ← as_uint J v "eps_bearer_id"
    s1_uteid_dl ← as_uint J v "s1_uteid_dl"
    _ ← as_uint J v "s11_cteid_upf"
    let r1 = J.set_num J.null "guti" guti
    let r2 = J.set_num r1 "s1_uteid_dl" s1_uteid_dl
    let r3 = J.set_num r2 "eps_bearer_id" (u8 eps)
    let r4 = J.set_text r3 "g_trafmon_ip_addr" a.g_trafmon_ip_addr
    let r5 = J.set_num r4 "g_trafmon_port" a.g_trafmon_port
    (s2, _, w) ← send_and_receive J (smf "/Nsmf_PDUSession/UpdateSMContext") s1 r5 J.null
    if bool_member J w "res" false
        then ok (set_local a guti (record (local a guti) { ecm_state = 1 }), s2)
        else ok (a, s2)

  -- The GUTI that is released and removed is the one that the message names.
  unfoldable pub handle_detach : Amf → S → Packet → Result (Amf × S × List Packet)
  handle_detach a s pkt = do
    let guti0 = guti_of a pkt
    stop_if (guti0 == 0) zero_guti
    let req = J.set_num J.null "guti" guti0
    (s1, _, v) ← send_and_receive J (net.udm "/Nudm_UECM/UECtx/HandleDetach") s req J.null
    eps ← as_uint J v "eps_bearer_id"
    _ ← as_uint J v "s11_cteid_upf"
    (intact, p1) ← hmac_check O pkt (J.num v "k_nas_int")
    stop_if (not intact) hmac_failure
    p2 ← dec O p1 (J.num v "k_nas_enc")
    (guti, p3) ← extract_u64 p2
    (ksi_asme, p4) ← extract_u64 p3
    (detach_type, _) ← extract_u64 p4
    let r1 = J.set_num J.null "guti" guti
    let r2 = J.set_num r1 "eps_bearer_id" (u8 eps)
    let r3 = J.set_num r2 "tai" (J.num v "tai")
    (s2, parsed, w) ← send_and_receive J (smf "/Nsmf_PDUSession/ReleaseSMContext") s1 r3 J.null
    let mme = pkt.s1ap_hdr.mme_s1ap_ue_id
    if parsed
        then (if bool_member J w "res" false
            then (do
              m ←
                  build_nas O (flag true ∷ []) 5 pkt.s1ap_hdr.enodeb_s1ap_ue_id mme
                    (J.num v "k_nas_enc") (J.num v "k_nas_int") pkt
              ok (rem_local (rem_s1amf_id a mme) guti, s2, m ∷ []))
            else ok (a, s2, []))
        else ok (a, s2, [])
