-- ===== src/Amf/Session.antt =====
-- `Amf::handle_create_session` of src/amf.cpp.
use g_core_rest_sba.Base.{ℕ, true, List, [], ◌∷◌, ◌++◌, Bytes, map, ◌==◌}
use g_core_rest_sba.Base.Words.{u8, u16, u32}
use g_core_rest_sba.Base.Stop.{Result, ok, zero_guti, ◌>>=◌, ◌>>◌, stop_if}
use g_core_rest_sba.Packet.Buffer.{Packet}
use g_core_rest_sba.Packet.Items.{Item, flag, octet, half, word, int, long, text}
use g_core_rest_sba.Telecom.Identity.{get_s11cteidamf}
use g_core_rest_sba.Json.{Json, as_uint, as_int, num_member, text_member, uint_member, int_member}
use g_core_rest_sba.Rest.{Routes, send_and_receive}
use g_core_rest_sba.Security.Openssl.{Openssl}
use g_core_rest_sba.Security.Crypt.{build_nas}
use g_core_rest_sba.Amf.State.{Amf, UeContext, Peers, local, set_local, guti_of}

-- The items of an attach accept.
abbrev pub accept_items : ℕ → ℕ → ℕ → ℕ → ℕ → ℕ → List ℕ → ℕ → Bytes → Bytes → ℕ → List Item
accept_items guti eps e_rab ul k_enodeb capability tai_list tau_timer ue_ip s1_ip s1_port =
    long guti
    ∷ octet eps
    ∷ octet e_rab
    ∷ word ul
    ∷ long k_enodeb
    ∷ half capability
    ∷ int 1
    ∷ (map long tai_list
        ++ (long tau_timer ∷ text ue_ip ∷ text s1_ip ∷ int s1_port ∷ flag true ∷ []))

module _ (J : Json) (O : Openssl) {S : Type 0} (net : Peers S J.Text) (smf : Routes S J.Text) where
  unfoldable pub set_upf_info : Amf → S → ℕ → Result (Amf × S)
  unfolding local set_local
  set_upf_info a s guti = do
    let c : UeContext = record (local a guti) {
      upf_smf_port = a.g_upf_smf_port;
      upf_smf_ip_addr = a.g_upf_smf_ip_addr;
    }
    let q1 = J.set_num J.null "guti" guti
    let q2 = J.set_num q1 "upf_smf_port" a.g_upf_smf_port
    let q3 = J.set_text q2 "upf_smf_ip_addr" a.g_upf_smf_ip_addr
    (s1, _, _) ← send_and_receive J (net.udm "/Nudm_UECM/UECtx/SetUPFInfo") s q3 J.null
    ok (set_local a guti c, s1)

  -- The replies of the UDM and of the SMF are read member by member; what the SMF leaves out keeps
  -- its value, which is what the memory held for the three numbers that are not set before.
  unfoldable pub handle_create_session : Amf → S → Packet → Result (Amf × S × List Packet)
  unfolding local set_local
  handle_create_session a s pkt = do
    let guti = guti_of a pkt
    stop_if (guti == 0) zero_guti
    (a1, s1) ← set_upf_info a s guti
    s11_cteid_amf ← get_s11cteidamf guti
    let a2 =
        set_local a1 guti
          (record (local a1 guti) { s11_cteid_amf = s11_cteid_amf; eps_bearer_id = 5 })
    let q1 = J.set_num J.null "guti" guti
    let q2 = J.set_num q1 "s11_cteid_amf" s11_cteid_amf
    let q3 = J.set_num q2 "eps_bearer_id" 5
    (s2, _, v) ←
        send_and_receive J (net.udm "/Nudm_UECM/UECtx/HandleCreateSessionBegin") s1 q3 J.null
    cteid ← as_uint J v "s11_cteid_amf"
    eps ← as_uint J v "eps_bearer_id"
    _ ← as_int J v "upf_smf_port"
    let r1 = J.set_num J.null "guti" guti
    let r2 = J.set_num r1 "imsi" (J.num v "imsi")
    let r3 = J.set_num r2 "s11_cteid_mme" cteid
    let r4 = J.set_num r3 "eps_bearer_id" (u8 eps)
    let r5 = J.set_num r4 "apn_in_use" (J.num v "apn_in_use")
    let r6 = J.set_num r5 "tai" (J.num v "tai")
    (s3, _, w) ← send_and_receive J (smf "/Nsmf_PDUSession/CreateSMContext") s2 r6 J.null
    let guti2 = num_member J w "guti" guti
    eps2 ← uint_member J w "eps_bearer_id" (u8 eps)
    _ ← uint_member J w "e_rab_id" 0
    s1_uteid_ul ← uint_member J w "s1_uteid_ul" (u32 a.junk)
    s11_cteid_upf ← uint_member J w "s11_cteid_sgw" (u32 a.junk)
    _ ← int_member J w "tai_list_size" 0
    let tau_timer = num_member J w "tau_timer" a.junk
    let ue_ip_addr = text_member J w "ue_ip_addr" []
    s1_port ← int_member J w "upf_s1_port" a2.g_upf_s1_port
    let a3 : Amf = record a2 {
      g_upf_s1_ip_addr = text_member J w "upf_s1_ip_addr" a2.g_upf_s1_ip_addr;
      g_upf_s1_port = s1_port;
    }
    let t1 = J.set_num J.null "guti" guti2
    let t2 = J.set_text t1 "ue_ip_addr" ue_ip_addr
    let t3 = J.set_num t2 "s11_cteid_upf" s11_cteid_upf
    let t4 = J.set_num t3 "s1_uteid_ul" s1_uteid_ul
    let t5 = J.set_num t4 "tau_timer" tau_timer
    (s4, _, x) ← send_and_receive J (net.udm "/Nudm_UECM/UECtx/HandleCreateSessionEnd") s3 t5 J.null
    e_rab_id ← as_uint J x "e_rab_id"
    m ←
        build_nas O
          (accept_items guti2 (u8 eps2) (u8 e_rab_id) s1_uteid_ul (J.num x "k_enodeb")
            (u16 (J.num x "nw_capability")) (J.nums x "tai_list") (J.num x "tau_timer") ue_ip_addr
            a3.g_upf_s1_ip_addr a3.g_upf_s1_port)
          3 pkt.s1ap_hdr.enodeb_s1ap_ue_id pkt.s1ap_hdr.mme_s1ap_ue_id (J.num x "k_nas_enc")
          (J.num x "k_nas_int") pkt
    ok (a3, s4, m ∷ [])
