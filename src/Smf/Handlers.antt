-- ===== src/Smf/Handlers.antt =====
-- The three handlers of `class Smf` in src/smf.cpp, over any UDM and any UPF.
use g_core_rest_sba.Base.{ℕ, Bool, true, List, [], ◌∷◌, Bytes, ◌==◌, if◌then◌else◌}
use g_core_rest_sba.Base.Words.{u8}
use g_core_rest_sba.Base.Stop.{Result, ok, zero_guti, ◌>>=◌, ◌>>◌, stop_if}
use g_core_rest_sba.Packet.Buffer.{Packet, extract_gtp_hdr, extract_bool, extract_u32, extract_str}
use g_core_rest_sba.Packet.Items.{octet, word, int, long, text}
use g_core_rest_sba.Packet.Message.{build_gtp}
use g_core_rest_sba.Net.Udp.{N4, rcv}
use g_core_rest_sba.Json.{Json, as_uint}
use g_core_rest_sba.Rest.{Routes, send_and_receive}

pub record CreateSmContextRequest : Type 0 where
  pub guti : ℕ
  pub imsi : ℕ
  pub s11_cteid_mme : ℕ
  pub eps_bearer_id : ℕ
  pub apn_in_use : ℕ
  pub tai : ℕ

pub record CreateSmContextResponse : Type 0 where
  pub guti : ℕ
  pub eps_bearer_id : ℕ
  pub e_rab_id : ℕ
  pub s1_uteid_ul : ℕ
  pub s11_cteid_sgw : ℕ
  pub k_enodeb : ℕ
  pub tai_list_size : ℕ
  pub tai_list : List ℕ
  pub tau_timer : ℕ
  pub ue_ip_addr : Bytes
  pub upf_s1_ip_addr : Bytes
  pub upf_s1_port : ℕ
  pub res : Bool

pub record UpdateSmContextRequest : Type 0 where
  pub guti : ℕ
  pub s1_uteid_dl : ℕ
  pub eps_bearer_id : ℕ
  pub g_trafmon_ip_addr : Bytes
  pub g_trafmon_port : ℕ

pub record ReleaseSmContextRequest : Type 0 where
  pub guti : ℕ
  pub eps_bearer_id : ℕ
  pub tai : ℕ

-- The globals that the handlers use: where the UPF's user plane is, and the traffic monitor that
-- the last modification named.
pub record Smf : Type 0 where
  pub upf_s1_ip_addr : Bytes
  pub upf_s1_port : ℕ
  pub g_trafmon_ip_addr : Bytes
  pub g_trafmon_port : ℕ

abbrev pub g_timer : ℕ
g_timer = 100

module _ (J : Json) {S U : Type 0} (udm : Routes S J.Text) (upf : N4 U) where
  -- `pkt` is the packet over the memory it is constructed in.
  unfoldable pub handle_create_session :
      Smf → Packet → S → U → CreateSmContextRequest → Result (S × U × CreateSmContextResponse)
  handle_create_session smf pkt s u request = do
    stop_if (request.guti == 0) zero_guti
    let q1 = J.set_num J.null "guti" request.guti
    let q2 = J.set_num q1 "s11_cteid_mme" request.s11_cteid_mme
    let q3 = J.set_num q2 "eps_bearer_id" request.eps_bearer_id
    let q4 = J.set_num q3 "imsi" request.imsi
    let q5 = J.set_num q4 "apn_in_use" request.apn_in_use
    let q6 = J.set_num q5 "tai" request.tai
    (s1, _, v) ← send_and_receive J (udm "/Nudm_UECM/UECtx/RequestSMFCreateSession") s q6 J.null
    s11_cteid_mme ← as_uint J v "s11_cteid_mme"
    eps ← as_uint J v "eps_bearer_id"
    let eps_bearer_id = u8 eps
    m ←
        build_gtp
          (word s11_cteid_mme
            ∷ long (J.num v "imsi")
            ∷ octet eps_bearer_id
            ∷ long (J.num v "apn_in_use")
            ∷ long (J.num v "tai")
            ∷ [])
          2 1 0 pkt
    (u1, back) ← upf u m
    p1 ← extract_gtp_hdr (rcv m back)
    (s11_cteid_sgw, p2) ← extract_u32 p1
    (ue_ip_addr, p3) ← extract_str p2
    (s1_uteid_ul, _) ← extract_u32 p3
    let w1 = J.set_num J.null "guti" request.guti
    let w2 = J.set_text w1 "ue_ip_addr" ue_ip_addr
    let w3 = J.set_num w2 "s11_cteid_sgw" s11_cteid_sgw
    let w4 = J.set_num w3 "s1_uteid_ul" s1_uteid_ul
    let w5 = J.set_num w4 "g_timer" g_timer
    (s2, _, r) ← send_and_receive J (udm "/Nudm_UECM/UECtx/UpdateSMFCreateSession") s1 w5 J.null
    e_rab_id ← as_uint J r "e_rab_id"
    ok (
      s2,
      u1,
      record {
        guti = request.guti;
        eps_bearer_id = eps_bearer_id;
        e_rab_id = u8 e_rab_id;
        s1_uteid_ul = s1_uteid_ul;
        s11_cteid_sgw = s11_cteid_mme;
        k_enodeb = J.num r "k_enodeb";
        tai_list_size = 1;
        tai_list = J.nums r "tai_list";
        tau_timer = J.num r "tau_timer";
        ue_ip_addr = ue_ip_addr;
        upf_s1_ip_addr = smf.upf_s1_ip_addr;
        upf_s1_port = smf.upf_s1_port;
        res = true;
      },
    )

  -- The bearer and the downlink TEID that are sent on are those that the UDM has.
  unfoldable pub handle_modify_bearer :
      Smf → Packet → S → U → UpdateSmContextRequest → Result (Smf × S × U × Bool)
  handle_modify_bearer smf pkt s u request = do
    stop_if (request.guti == 0) zero_guti
    let smf1 : Smf = record smf {
      g_trafmon_ip_addr = request.g_trafmon_ip_addr;
      g_trafmon_port = request.g_trafmon_port;
    }
    let q = J.set_num J.null "guti" request.guti
    (s1, _, v) ← send_and_receive J (udm "/Nudm_UECM/UECtx/RequestSMFModifyBearer") s q J.null
    eps ← as_uint J v "eps_bearer_id"
    s1_uteid_dl ← as_uint J v "s1_uteid_dl"
    s11_cteid_sgw ← as_uint J v "s11_cteid_sgw"
    m ←
        build_gtp
          (octet (u8 eps)
            ∷ word s1_uteid_dl
            ∷ text smf1.g_trafmon_ip_addr
            ∷ int smf1.g_trafmon_port
            ∷ [])
          2 2 s11_cteid_sgw pkt
    (u1, back) ← upf u m
    p1 ← extract_gtp_hdr (rcv m back)
    (res, _) ← extract_bool p1
    ok (smf1, s1, u1, res)

  -- The response's `res`, whose first value is what its memory held, is set on a success only.
  unfoldable pub handle_detach :
      Packet → Bool → S → U → ReleaseSmContextRequest → Result (S × U × Bool)
  handle_detach pkt unset s u request = do
    stop_if (request.guti == 0) zero_guti
    let q = J.set_num J.null "guti" request.guti
    (s1, _, v) ← send_and_receive J (udm "/Nudm_UECM/UECtx/RequestSMFDetach") s q J.null
    s11_cteid_sgw ← as_uint J v "s11_cteid_sgw"
    m ← build_gtp (octet request.eps_bearer_id ∷ long request.tai ∷ []) 2 3 s11_cteid_sgw pkt
    (u1, back) ← upf u m
    p1 ← extract_gtp_hdr (rcv m back)
    (res, _) ← extract_bool p1
    ok (s1, u1, if res then res else unset)
