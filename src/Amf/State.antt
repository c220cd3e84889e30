-- ===== src/Amf/State.antt =====
-- `class UeContext` and `class Amf` of src/amf.h, and the private functions over the tables.
use g_core_rest_sba.Base.{ℕ, List, [], Bytes}
use g_core_rest_sba.Base.Map.{Map, empty, put, erase, get_or}
use g_core_rest_sba.Rest.{Routes}
use g_core_rest_sba.Packet.Buffer.{Packet}
use g_core_rest_sba.Telecom.Identity.{AmfIds}

pub record UeContext : Type 0 where
  pub emm_state : ℕ
  pub ecm_state : ℕ
  pub imsi : ℕ
  pub ip_addr : Bytes
  pub enodeb_s1ap_ue_id : ℕ
  pub mme_s1ap_ue_id : ℕ
  pub tai : ℕ
  pub tai_list : List ℕ
  pub tau_timer : ℕ
  pub ksi_asme : ℕ
  pub k_asme : ℕ
  pub k_enodeb : ℕ
  pub k_nas_enc : ℕ
  pub k_nas_int : ℕ
  pub nas_enc_algo : ℕ
  pub nas_int_algo : ℕ
  pub count : ℕ
  pub bearer : ℕ
  pub dir : ℕ
  pub default_apn : ℕ
  pub apn_in_use : ℕ
  pub eps_bearer_id : ℕ
  pub e_rab_id : ℕ
  pub s1_uteid_ul : ℕ
  pub s1_uteid_dl : ℕ
  pub s5_uteid_ul : ℕ
  pub s5_uteid_dl : ℕ
  pub xres : ℕ
  pub nw_type : ℕ
  pub nw_capability : ℕ
  pub upf_smf_ip_addr : Bytes
  pub upf_smf_port : ℕ
  pub s11_cteid_amf : ℕ
  pub s11_cteid_upf : ℕ

-- `UeContext::UeContext`, with `junk` in the three members that it leaves uninitialised.
unfoldable pub new_local : ℕ → UeContext
new_local junk = record {
  emm_state = 0;
  ecm_state = 0;
  imsi = 0;
  ip_addr = [];
  enodeb_s1ap_ue_id = 0;
  mme_s1ap_ue_id = 0;
  tai = 0;
  tai_list = [];
  tau_timer = 0;
  ksi_asme = 0;
  k_asme = 0;
  k_enodeb = junk;
  k_nas_enc = 0;
  k_nas_int = 0;
  nas_enc_algo = 0;
  nas_int_algo = 0;
  count = 1;
  bearer = 0;
  dir = 1;
  default_apn = 0;
  apn_in_use = 0;
  eps_bearer_id = 0;
  e_rab_id = 0;
  s1_uteid_ul = 0;
  s1_uteid_dl = 0;
  s5_uteid_ul = junk;
  s5_uteid_dl = junk;
  xres = 0;
  nw_type = 0;
  nw_capability = 0;
  upf_smf_ip_addr = [];
  upf_smf_port = 0;
  s11_cteid_amf = 0;
  s11_cteid_upf = 0;
}

-- The class, with the globals of src/amf.cpp that its handlers use.
pub record Amf : Type 0 where
  pub amf_ids : AmfIds
  pub ue_count : ℕ
  pub s1amf_id : Map ℕ ℕ
  pub ue_ctx : Map ℕ UeContext
  pub g_trafmon_ip_addr : Bytes
  pub g_trafmon_port : ℕ
  pub g_upf_smf_ip_addr : Bytes
  pub g_upf_smf_port : ℕ
  pub g_upf_s1_ip_addr : Bytes
  pub g_upf_s1_port : ℕ
  pub junk : ℕ

-- `Amf::Amf` with `clrstl`, where `resolve_host` answers `ran` and `upf` for these names; the ports
-- are those of src/ports.h.
unfoldable pub new_amf : AmfIds → Bytes → Bytes → ℕ → Amf
new_amf ids ran upf junk = record {
  amf_ids = ids;
  ue_count = 0;
  s1amf_id = empty;
  ue_ctx = empty;
  g_trafmon_ip_addr = ran;
  g_trafmon_port = 4000;
  g_upf_smf_ip_addr = upf;
  g_upf_smf_port = 8000;
  g_upf_s1_ip_addr = upf;
  g_upf_s1_port = 7100;
  junk = junk;
}

-- `ue_ctx[guti]`, which creates a missing entry, and the write of a changed entry.
unfoldable pub local : Amf → ℕ → UeContext
unfolding new_local
local a guti = get_or (a.ue_ctx guti) (new_local a.junk)

unfoldable pub set_local : Amf → ℕ → UeContext → Amf
set_local a guti c = record a { ue_ctx = put a.ue_ctx guti c }

-- `Amf::get_guti`: 0 stands for "not found".
unfoldable pub guti_of : Amf → Packet → ℕ
guti_of a pkt = get_or (a.s1amf_id pkt.s1ap_hdr.mme_s1ap_ue_id) 0

-- `Amf::rem_itfid` and `Amf::rem_uectx`.
unfoldable pub rem_s1amf_id : Amf → ℕ → Amf
rem_s1amf_id a mme_s1ap_ue_id = record a { s1amf_id = erase a.s1amf_id mme_s1ap_ue_id }

unfoldable pub rem_local : Amf → ℕ → Amf
rem_local a guti = record a { ue_ctx = erase a.ue_ctx guti }

-- The functions that the AMF asks over HTTP, in one state.
pub record Peers (S X : Type 0) : Type 0 where
  pub udm : Routes S X
  pub ausf : Routes S X

-- What a handler sends: to the UE's connection, or over a connection of its own to the source or the
-- target eNodeB of a handover.
pub data Sent : Type 0 where
  to_ue to_source to_target : Packet → Sent
