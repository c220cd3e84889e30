-- ===== src/Ran/Session.antt =====
-- The security mode, the session and the detach of src/ran.cpp. A function takes the packet that the
-- RAN has received and answers with the UE's new context, the result, and the packet that it sends.
use g_core_rest_sba.Base.{ℕ, ◌^◌, Bool, true, false, not, List, [], ◌∷◌, Bytes, leb, if◌then◌else◌}
use g_core_rest_sba.Base.Stop.{Result, ok, hmac_failure, ◌>>=◌, ◌>>◌, stop_if}
use g_core_rest_sba.Packet.Buffer.{
  Packet, extract_s1ap_hdr, extract_bool, extract_u8, extract_u16, extract_u32, extract_int,
  extract_u64, extract_u64s, extract_str,
}
use g_core_rest_sba.Packet.Items.{flag, octet, word, long}
use g_core_rest_sba.Net.Stream.{is_closed}
use g_core_rest_sba.Security.Openssl.{Openssl}
use g_core_rest_sba.Security.Crypt.{rem_hmac, get_hmac, cmp_hmacs, hmac_check, dec, build_nas}
use g_core_rest_sba.Ran.Context.{RanContext, set_crypt_context, set_integrity_context}
use g_core_rest_sba.Ran.Traffic.{TrafficMonitor, update_uplink_info}

-- `class Ran`, without its socket and its packet.
pub record Ran : Type 0 where
  pub sgw_s1_ip_addr : Bytes
  pub sgw_s1_port : ℕ
  pub enodeb_id : ℕ
  pub handover_state : ℕ
  pub ran_ctx : RanContext

-- A length that is negative as an `int` runs no round of a loop up to it.
abbrev pub rounds : ℕ → ℕ
rounds n = if leb (2 ^ 31) n then 0 else n

module _ (O : Openssl) where
  -- The digest is checked under the key that the algorithms of the message make.
  unfoldable pub set_security : RanContext → Packet → Result (RanContext × Bool × List Packet)
  set_security c0 received = if is_closed received.len then ok (c0, false, []) else (do
    p1 ← extract_s1ap_hdr received
    (hmac_xres, p2) ← rem_hmac O p1
    (ksi_asme, p3) ← extract_u64 p2
    (nw_capability, p4) ← extract_u16 p3
    (nas_enc_algo, p5) ← extract_u64 p4
    (nas_int_algo, p6) ← extract_u64 p5
    let c1 : RanContext = record c0 {
      ksi_asme = ksi_asme;
      nw_capability = nw_capability;
      nas_enc_algo = nas_enc_algo;
      nas_int_algo = nas_int_algo;
    }
    let c = set_integrity_context (set_crypt_context c1)
    hmac_res ← get_hmac O p6 c.k_nas_int
    stop_if (not (cmp_hmacs hmac_res hmac_xres)) hmac_failure
    m ←
        build_nas O (flag true ∷ []) 3 c.enodeb_s1ap_ue_id c.mme_s1ap_ue_id c.k_nas_enc c.k_nas_int
          p6
    ok (c, true, m ∷ []))

  -- The members are written as they are read, also when the attach is refused in the end.
  unfoldable pub set_eps_session :
      Ran → TrafficMonitor → Packet → Result (Ran × TrafficMonitor × Bool × List Packet)
  set_eps_session r t received = if is_closed received.len then ok (r, t, false, []) else (do
    let c0 = r.ran_ctx
    p1 ← extract_s1ap_hdr received
    (intact, p2) ← hmac_check O p1 c0.k_nas_int
    stop_if (not intact) hmac_failure
    p3 ← dec O p2 c0.k_nas_enc
    (guti, p4) ← extract_u64 p3
    (eps_bearer_id, p5) ← extract_u8 p4
    (e_rab_id, p6) ← extract_u8 p5
    (s1_uteid_ul, p7) ← extract_u32 p6
    (k_enodeb, p8) ← extract_u64 p7
    (nw_capability, p9) ← extract_u16 p8
    (tai_list_size, p10) ← extract_int p9
    (tai_list, p11) ← extract_u64s (rounds tai_list_size) p10
    (tau_timer, p12) ← extract_u64 p11
    (ip_addr, p13) ← extract_str p12
    (sgw_s1_ip_addr, p14) ← extract_str p13
    (sgw_s1_port, p15) ← extract_int p14
    (res, p16) ← extract_bool p15
    let c1 : RanContext = record c0 {
      guti = guti;
      eps_bearer_id = eps_bearer_id;
      e_rab_id = e_rab_id;
      s1_uteid_ul = s1_uteid_ul;
      nw_capability = nw_capability;
      tai_list = tai_list;
      tau_timer = tau_timer;
      ip_addr = ip_addr;
    }
    let r1 : Ran = record r {
      sgw_s1_ip_addr = sgw_s1_ip_addr;
      sgw_s1_port = sgw_s1_port;
      ran_ctx = c1;
    }
    if res
        then (do
          m ←
              build_nas O (octet eps_bearer_id ∷ word s1_uteid_ul ∷ []) 4 c1.enodeb_s1ap_ue_id
                c1.mme_s1ap_ue_id c1.k_nas_enc c1.k_nas_int p16
          ok (
            record r1 {
              ran_ctx = record c1 { s1_uteid_dl = s1_uteid_ul; emm_state = 1; ecm_state = 1 };
            },
            update_uplink_info t ip_addr s1_uteid_ul sgw_s1_ip_addr sgw_s1_port,
            true,
            m ∷ [],
          ))
        else ok (r1, t, false, []))

  -- The two halves of `Ran::detach`: the request, and the judgement of what comes back.
  unfoldable pub request_detach : RanContext → Packet → Result Packet
  request_detach c pkt =
      build_nas O (long c.guti ∷ long c.ksi_asme ∷ long 1 ∷ []) 5 c.enodeb_s1ap_ue_id
        c.mme_s1ap_ue_id c.k_nas_enc c.k_nas_int pkt

  unfoldable pub detached : RanContext → Packet → Result Bool
  detached c received = if is_closed received.len then ok false else (do
    p1 ← extract_s1ap_hdr received
    (intact, p2) ← hmac_check O p1 c.k_nas_int
    stop_if (not intact) hmac_failure
    p3 ← dec O p2 c.k_nas_enc
    (res, _) ← extract_bool p3
    ok res)
