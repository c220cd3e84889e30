-- ===== src/Upf/State.antt =====
-- `class UeContext` and `class Upf` of src/upf.h, and the private functions over the tables.
use g_core_rest_sba.Base.{ℕ, Option, none, some, [], Bytes, ◌==◌, if◌then◌else◌}
use g_core_rest_sba.Base.Words.{u32}
use g_core_rest_sba.Base.Stop.{Result, ok, stop, bad_itf}
use g_core_rest_sba.Base.Map.{Map, empty, put, erase, put_str, erase_str, get_or}

pub record UeContext : Type 0 where
  pub ip_addr : Bytes
  pub tai : ℕ
  pub apn_in_use : ℕ
  pub eps_bearer_id : ℕ
  pub s1_uteid_ul : ℕ
  pub s1_uteid_dl : ℕ
  pub s11_cteid_smf : ℕ
  pub s11_cteid_upf : ℕ
  pub s1_cteid_ul : ℕ
  pub s1_cteid_dl : ℕ
  pub enodeb_ip_addr : Bytes
  pub enodeb_port : ℕ
  pub sgi_cteid_ul : ℕ

-- `UeContext::UeContext`. It does not set the two user-plane TEIDs: they hold what the memory
-- held, `junk`.
unfoldable pub new_ue : ℕ → UeContext
new_ue junk = record {
  ip_addr = [];
  tai = 0;
  apn_in_use = 0;
  eps_bearer_id = 0;
  s1_uteid_ul = junk;
  s1_uteid_dl = junk;
  s11_cteid_smf = 0;
  s11_cteid_upf = 0;
  s1_cteid_ul = 0;
  s1_cteid_dl = 0;
  enodeb_ip_addr = [];
  enodeb_port = 0;
  sgi_cteid_ul = 0;
}

-- `UeContext::init`, its parameters in the order of the source.
unfoldable pub init_ue : UeContext → Bytes → ℕ → ℕ → ℕ → ℕ → ℕ → ℕ → UeContext
init_ue c ip_addr tai apn_in_use eps_bearer_id s11_cteid_smf s11_cteid_upf s1_uteid_ul = record c {
  ip_addr = ip_addr;
  tai = tai;
  apn_in_use = apn_in_use;
  eps_bearer_id = eps_bearer_id;
  s1_uteid_ul = s1_uteid_ul;
  s11_cteid_smf = s11_cteid_smf;
  s11_cteid_upf = s11_cteid_upf;
}

-- The tables; `ho_ue_ctx` has 32-bit keys. `junk` is what uninitialised members hold.
pub record Upf : Type 0 where
  pub s11_id : Map ℕ ℕ
  pub s1_id : Map ℕ ℕ
  pub sgi_id : Map Bytes ℕ
  pub ue_ctx : Map ℕ UeContext
  pub ho_ue_ctx : Map ℕ UeContext
  pub ip_addrs : Map ℕ Bytes
  pub junk : ℕ

-- `Upf::Upf` with `clrstl`; the address plan is filled in by `set_ip_addrs`.
unfoldable pub new_upf : Map ℕ Bytes → ℕ → Upf
new_upf plan junk = record {
  s11_id = empty;
  s1_id = empty;
  sgi_id = empty;
  ue_ctx = empty;
  ho_ue_ctx = empty;
  ip_addrs = plan;
  junk = junk;
}

-- `ue_ctx[imsi]`, which creates a missing entry, and the write of a changed entry.
unfoldable pub ue : Upf → ℕ → UeContext
unfolding new_ue
ue u imsi = get_or (u.ue_ctx imsi) (new_ue u.junk)

unfoldable pub set_ue : Upf → ℕ → UeContext → Upf
set_ue u imsi c = record u { ue_ctx = put u.ue_ctx imsi c }

-- `ho_ue_ctx[imsi]`: the key is reduced to 32 bits.
unfoldable pub ho_ue : Upf → ℕ → UeContext
unfolding new_ue
ho_ue u imsi = get_or (u.ho_ue_ctx (u32 imsi)) (new_ue u.junk)

unfoldable pub set_ho_ue : Upf → ℕ → UeContext → Upf
set_ho_ue u imsi c = record u { ho_ue_ctx = put u.ho_ue_ctx (u32 imsi) c }

-- `Upf::update_itfid`, without and with an address.
unfoldable pub update_itfid : Upf → ℕ → ℕ → ℕ → Result Upf
update_itfid u itf teid imsi =
    if itf == 11
    then ok (record u { s11_id = put u.s11_id teid imsi })
    else if itf == 1
    then ok (record u { s1_id = put u.s1_id teid imsi })
    else stop bad_itf

unfoldable pub update_itfid_ip : Upf → ℕ → ℕ → Bytes → ℕ → Result Upf
update_itfid_ip u itf teid ip imsi =
    if itf == 11
    then ok (record u { s11_id = put u.s11_id teid imsi })
    else if itf == 1
    then ok (record u { s1_id = put u.s1_id teid imsi })
    else if itf == 0
    then ok (record u { sgi_id = put_str u.sgi_id ip imsi })
    else stop bad_itf

-- `Upf::get_imsi`: 0 stands for "not found".
unfoldable pub get_imsi : Upf → ℕ → ℕ → Result ℕ
get_imsi u itf teid =
    if itf == 11
    then ok (get_or (u.s11_id teid) 0)
    else if itf == 1
    then ok (get_or (u.s1_id teid) 0)
    else stop bad_itf

unfoldable pub get_imsi_ip : Upf → ℕ → ℕ → Bytes → Result ℕ
get_imsi_ip u itf teid ip =
    if itf == 11
    then ok (get_or (u.s11_id teid) 0)
    else if itf == 1
    then ok (get_or (u.s1_id teid) 0)
    else if itf == 0
    then ok (get_or (u.sgi_id ip) 0)
    else stop bad_itf

-- `Upf::get_downlink_info`: the TEID, the address and the port, if the eNodeB is known.
abbrev pub downlink_of : Option UeContext → Option (ℕ × Bytes × ℕ)
downlink_of none = none
downlink_of (some c) =
    if c.enodeb_port == 0 then none else some (c.s1_uteid_dl, c.enodeb_ip_addr, c.enodeb_port)

unfoldable pub get_downlink_info : Upf → ℕ → Option (ℕ × Bytes × ℕ)
get_downlink_info u imsi = downlink_of (u.ue_ctx imsi)

-- `Upf::rem_itfid`, without and with an address, and `Upf::rem_uectx`.
unfoldable pub rem_itfid : Upf → ℕ → ℕ → Result Upf
rem_itfid u itf teid =
    if itf == 11
    then ok (record u { s11_id = erase u.s11_id teid })
    else if itf == 1
    then ok (record u { s1_id = erase u.s1_id teid })
    else stop bad_itf

unfoldable pub rem_itfid_ip : Upf → ℕ → ℕ → Bytes → Result Upf
rem_itfid_ip u itf teid ip =
    if itf == 11
    then ok (record u { s11_id = erase u.s11_id teid })
    else if itf == 1
    then ok (record u { s1_id = erase u.s1_id teid })
    else if itf == 0
    then ok (record u { sgi_id = erase_str u.sgi_id ip })
    else stop bad_itf

unfoldable pub rem_uectx : Upf → ℕ → Upf
rem_uectx u imsi = record u { ue_ctx = erase u.ue_ctx imsi }
