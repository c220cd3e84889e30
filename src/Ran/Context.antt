-- ===== src/Ran/Context.antt =====
-- `class RanContext` of src/ran.h, a simulated UE with its eNodeB, and the authentication of
-- src/ran.cpp.
use g_core_rest_sba.Base.{ℕ, ◌+◌, Bool, true, false, List, [], ◌∷◌, Bytes, ◌==◌, if◌then◌else◌}
use g_core_rest_sba.Base.Words.{u16, u32, u64}
use g_core_rest_sba.Base.Stop.{Result, ok, ◌>>=◌}
use g_core_rest_sba.Packet.Buffer.{Packet, extract_s1ap_hdr, extract_u64}
use g_core_rest_sba.Net.Stream.{is_closed}
use g_core_rest_sba.Packet.Items.{half, long}
use g_core_rest_sba.Packet.Message.{build_s1ap}
use g_core_rest_sba.Telecom.Identity.{get_plmn_id, get_imsi}

pub record RanContext : Type 0 where
  pub emm_state : ℕ
  pub ecm_state : ℕ
  pub imsi : ℕ
  pub guti : ℕ
  pub ip_addr : Bytes
  pub enodeb_s1ap_ue_id : ℕ
  pub mme_s1ap_ue_id : ℕ
  pub tai : ℕ
  pub tai_list : List ℕ
  pub tau_timer : ℕ
  pub key : ℕ
  pub k_asme : ℕ
  pub ksi_asme : ℕ
  pub k_nas_enc : ℕ
  pub k_nas_int : ℕ
  pub nas_enc_algo : ℕ
  pub nas_int_algo : ℕ
  pub count : ℕ
  pub bearer : ℕ
  pub dir : ℕ
  pub apn_in_use : ℕ
  pub eps_bearer_id : ℕ
  pub e_rab_id : ℕ
  pub s1_uteid_ul : ℕ
  pub s1_uteid_dl : ℕ
  pub mcc : ℕ
  pub mnc : ℕ
  pub plmn_id : ℕ
  pub msisdn : ℕ
  pub nw_capability : ℕ
  pub enodeb_id : ℕ
  pub handover_target_enodeb_id : ℕ
  pub indirect_s1_uteid_ul : ℕ

-- `RanContext::RanContext`, with `junk` in the three members that it leaves uninitialised; a fourth,
-- `inHandover`, is used by nothing.
unfoldable pub new_ran : ℕ → Result RanContext
new_ran junk = do
  plmn_id ← get_plmn_id 1 1
  ok (record {
    emm_state = 0;
    ecm_state = 0;
    imsi = 0;
    guti = 0;
    ip_addr = [];
    enodeb_s1ap_ue_id = 0;
    mme_s1ap_ue_id = 0;
    tai = 1;
    tai_list = [];
    tau_timer = 0;
    key = 0;
    k_asme = 0;
    ksi_asme = 7;
    k_nas_enc = 0;
    k_nas_int = 0;
    nas_enc_algo = 0;
    nas_int_algo = 0;
    count = 1;
    bearer = 0;
    dir = 0;
    apn_in_use = 0;
    eps_bearer_id = 0;
    e_rab_id = 0;
    s1_uteid_ul = 0;
    s1_uteid_dl = 0;
    mcc = 1;
    mnc = 1;
    plmn_id = plmn_id;
    msisdn = 0;
    nw_capability = 1;
    enodeb_id = u16 junk;
    handover_target_enodeb_id = u16 junk;
    indirect_s1_uteid_ul = u32 junk;
  })

-- `RanContext::init`, on a context whose PLMN id is set.
unfoldable pub init_ran : RanContext → ℕ → Result RanContext
init_ran c arg = do
  let msisdn = u64 (9000000000 + arg)
  imsi ← get_imsi c.plmn_id msisdn
  ok (record c { enodeb_s1ap_ue_id = arg; key = arg; msisdn = msisdn; imsi = imsi })

-- `Ran::initial_attach`: the packet that goes to the AMF.
unfoldable pub initial_attach : RanContext → Packet → Result Packet
initial_attach c pkt =
    build_s1ap (long c.imsi ∷ long c.tai ∷ long c.ksi_asme ∷ half c.nw_capability ∷ []) 1
      c.enodeb_s1ap_ue_id 0 pkt

-- `Ran::authenticate`, once a packet is received: whether the network is accepted, and then the
-- packet that goes to the AMF.
unfoldable pub authenticate : RanContext → Packet → Result (RanContext × Bool × List Packet)
authenticate c0 received = if is_closed received.len then ok (c0, false, []) else (do
  p1 ← extract_s1ap_hdr received
  (xautn_num, p2) ← extract_u64 p1
  (rand_num, p3) ← extract_u64 p2
  (ksi_asme, p4) ← extract_u64 p3
  let c : RanContext = record c0 {
    mme_s1ap_ue_id = p1.s1ap_hdr.mme_s1ap_ue_id;
    ksi_asme = ksi_asme;
  }
  let sqn = u64 (rand_num + 1)
  let res = u64 (c.key + sqn + rand_num)
  let autn_num = u64 (res + 1)
  let ck = u64 (res + 2)
  let ik = u64 (res + 3)
  let k_asme = u64 (ck + ik + sqn + c.plmn_id)
  let reply = build_s1ap (long res ∷ []) 2 c.enodeb_s1ap_ue_id c.mme_s1ap_ue_id p4
  if autn_num == xautn_num
      then (do m ← reply; ok (record c { k_asme = k_asme }, true, m ∷ []))
      else ok (c, false, []))

-- `Ran::set_crypt_context` and `Ran::set_integrity_context`.
unfoldable pub set_crypt_context : RanContext → RanContext
set_crypt_context c = record c {
  k_nas_enc = u64 (c.k_asme + c.nas_enc_algo + c.count + c.bearer + c.dir + 1);
}

unfoldable pub set_integrity_context : RanContext → RanContext
set_integrity_context c = record c {
  k_nas_int = u64 (c.k_asme + c.nas_int_algo + c.count + c.bearer + c.dir + 1);
}
