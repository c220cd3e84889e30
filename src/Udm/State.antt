-- ===== src/Udm/State.antt =====
-- `class UeContext` and `class Udm` of src/udm.h.
use g_core_rest_sba.Base.{ℕ, List, [], Bytes}
use g_core_rest_sba.Base.Map.{Map, empty, put, get_or}

pub record UeContext : Type 0 where
  pub emm_state : ℕ
  pub ecm_state : ℕ
  pub imsi : ℕ
  pub ip_addr : Bytes
  pub enodeb_s1ap_ue_id : ℕ
  pub mme_s1ap_ue_id : ℕ
  pub tai : ℕ
  pub tai_list : List ℕ
  pub tau_timer : ℕ
  pub ksi_asme : ℕ
  pub k_asme : ℕ
  pub k_enodeb : ℕ
  pub k_nas_enc : ℕ
  pub k_nas_int : ℕ
  pub nas_enc_algo : ℕ
  pub nas_int_algo : ℕ
  pub count : ℕ
  pub bearer : ℕ
  pub dir : ℕ
  pub default_apn : ℕ
  pub apn_in_use : ℕ
  pub eps_bearer_id : ℕ
  pub e_rab_id : ℕ
  pub s1_uteid_ul : ℕ
  pub s1_uteid_dl : ℕ
  pub s5_uteid_ul : ℕ
  pub s5_uteid_dl : ℕ
  pub xres : ℕ
  pub nw_type : ℕ
  pub nw_capability : ℕ
  pub upf_smf_ip_addr : Bytes
  pub upf_smf_port : ℕ
  pub s11_cteid_amf : ℕ
  pub s11_cteid_upf : ℕ
  pub s11_cteid_mme : ℕ
  pub s11_cteid_sgw : ℕ

-- `UeContext::UeContext`. It leaves five members uninitialised: they hold what the memory held,
-- `junk`.
unfoldable pub new_ctx : ℕ → UeContext
new_ctx junk = record {
  emm_state = 0;
  ecm_state = 0;
  imsi = 0;
  ip_addr = [];
  enodeb_s1ap_ue_id = 0;
  mme_s1ap_ue_id = 0;
  tai = 0;
  tai_list = [];
  tau_timer = 0;
  ksi_asme = 0;
  k_asme = 0;
  k_enodeb = junk;
  k_nas_enc = 0;
  k_nas_int = 0;
  nas_enc_algo = 0;
  nas_int_algo = 0;
  count = 1;
  bearer = 0;
  dir = 1;
  default_apn = 0;
  apn_in_use = 0;
  eps_bearer_id = 0;
  e_rab_id = 0;
  s1_uteid_ul = 0;
  s1_uteid_dl = 0;
  s5_uteid_ul = junk;
  s5_uteid_dl = junk;
  xres = 0;
  nw_type = 0;
  nw_capability = 0;
  upf_smf_ip_addr = [];
  upf_smf_port = 0;
  s11_cteid_amf = 0;
  s11_cteid_upf = 0;
  s11_cteid_mme = junk;
  s11_cteid_sgw = junk;
}

-- The table of contexts by GUTI, and the two tables of the database: the key and the random number
-- of a subscriber, and the MME identity that serves it.
pub record Udm : Type 0 where
  pub ue_ctx : Map ℕ UeContext
  pub autn_info : Map ℕ (ℕ × ℕ)
  pub loc_info : Map ℕ ℕ
  pub junk : ℕ

-- `Udm::Udm` with `clrstl`, over a database.
unfoldable pub new_udm : Map ℕ (ℕ × ℕ) → Map ℕ ℕ → ℕ → Udm
new_udm autn loc junk = record { ue_ctx = empty; autn_info = autn; loc_info = loc; junk = junk }

-- `ue_ctx[guti]`, which creates a missing entry, and the write of a changed entry.
unfoldable pub ctx : Udm → ℕ → UeContext
unfolding new_ctx
ctx u guti = get_or (u.ue_ctx guti) (new_ctx u.junk)

unfoldable pub set_ctx : Udm → ℕ → UeContext → Udm
set_ctx u guti c = record u { ue_ctx = put u.ue_ctx guti c }
