-- ===== src/Amf/Security.antt =====
-- The security mode of src/amf.cpp and the location update that follows it.
use g_core_rest_sba.Base.{Bool, not, List, [], ◌∷◌, ◌==◌}
use g_core_rest_sba.Base.Words.{u16}
use g_core_rest_sba.Base.Stop.{Result, ok, zero_guti, hmac_failure, ◌>>=◌, ◌>>◌, stop_if}
use g_core_rest_sba.Packet.Buffer.{Packet, extract_bool}
use g_core_rest_sba.Packet.Items.{half, long}
use g_core_rest_sba.Json.{Json, as_uint}
use g_core_rest_sba.Rest.{send_and_receive}
use g_core_rest_sba.Security.Openssl.{Openssl}
use g_core_rest_sba.Security.Crypt.{build_sealed, hmac_check, dec}
use g_core_rest_sba.Amf.State.{Amf, UeContext, Peers, local, set_local, guti_of}
use g_core_rest_sba.Amf.Attach.{set_crypt_context, set_integrity_context}

module _ (J : Json) (O : Openssl) {S : Type 0} (net : Peers S J.Text) where
  unfoldable pub handle_security_mode_cmd : Amf → S → Packet → Result (Amf × S × List Packet)
  handle_security_mode_cmd a s pkt = do
    let guti = guti_of a pkt
    stop_if (guti == 0) zero_guti
    s1 ← set_crypt_context J net s guti
    (a1, s2) ← set_integrity_context J net a s1 guti
    let req = J.set_num J.null "guti" guti
    (s3, _, v) ← send_and_receive J (net.udm "/Nudm_UECM/UECtx/SetSecurityCmd") s2 req J.null
    nw_capability ← as_uint J v "nw_capability"
    m ←
        build_sealed O
          (long (J.num v "ksi_asme")
            ∷ half (u16 nw_capability)
            ∷ long (J.num v "nas_enc_algo")
            ∷ long (J.num v "nas_int_algo")
            ∷ [])
          2 pkt.s1ap_hdr.enodeb_s1ap_ue_id pkt.s1ap_hdr.mme_s1ap_ue_id (J.num v "k_nas_int") pkt
    ok (a1, s3, m ∷ [])

  -- Whether the UE has set its security up; a message with a wrong digest stops the process.
  unfoldable pub handle_security_mode_complete : Amf → S → Packet → Result (S × Bool)
  handle_security_mode_complete a s pkt = do
    let guti = guti_of a pkt
    stop_if (guti == 0) zero_guti
    let req = J.set_num J.null "guti" guti
    (s1, _, v) ← send_and_receive J (net.udm "/Nudm_UECM/UECtx/HandleSecurityMode") s req J.null
    (intact, p1) ← hmac_check O pkt (J.num v "k_nas_int")
    stop_if (not intact) hmac_failure
    p2 ← dec O p1 (J.num v "k_nas_enc")
    (res, _) ← extract_bool p2
    ok (s1, res)

  -- The access point names are set in the local context only.
  unfoldable pub handle_location_update : Amf → S → Packet → Result (Amf × S)
  unfolding local set_local
  handle_location_update a s pkt = do
    let guti = guti_of a pkt
    stop_if (guti == 0) zero_guti
    let req = J.set_num J.null "guti" guti
    (s1, _, v) ← send_and_receive J (net.udm "/Nudm_UECM/UECtx/HandleLocationUpdate") s req J.null
    let upd = J.set_num (J.set_num J.null "imsi" (J.num v "imsi")) "mmei" a.amf_ids.amfi
    (s2, _, r) ←
        send_and_receive J (net.ausf "/Nausf_UEAuthentication/LocationUpdate") s1 upd J.null
    let default_apn = J.num r "default_apn"
    let c : UeContext = record (local a guti) {
      default_apn = default_apn;
      apn_in_use = default_apn;
    }
    ok (set_local a guti c, s2)
