-- ===== src/Attach/Examples.antt =====
-- The attach of simulated UE number 3, at concrete inputs.
use g_core_rest_sba.Base.{ℕ, codes, ◌≡◌, refl, none, some, [], ◌∷◌, arith, true, false}
use g_core_rest_sba.Base.Map.{Map, empty}
use g_core_rest_sba.Base.Stop.{ok, bind_ok}
use g_core_rest_sba.Packet.Examples.{blank, blank-S1apInRange}
use g_core_rest_sba.Telecom.Identity.{ids, get_guti_lem}
use g_core_rest_sba.Json.Examples.{objects}
use g_core_rest_sba.Udm.State.{Udm, new_udm, new_ctx, ctx, set_ctx}
use g_core_rest_sba.Udm.Handlers.{ue_ctx_request_set_crypt_context}
use g_core_rest_sba.Udm.Server.{handle, callback}
use g_core_rest_sba.Udm.Isolation.{Own, handle-Own}
use g_core_rest_sba.Udm.Keys.{Counters, serve-Counters, new_udm-Counters}
use g_core_rest_sba.Amf.State.{Amf, new_amf, to_ue}
use g_core_rest_sba.Net.Udp.{N4}
use g_core_rest_sba.Rest.{Routes}
use g_core_rest_sba.Packet.Buffer.{Packet}
use g_core_rest_sba.Packet.Items.{images}
use g_core_rest_sba.Security.Examples.{padding}
use g_core_rest_sba.Security.Seal.{Message}
use g_core_rest_sba.Attach.SecurityMode.{command_items}
use g_core_rest_sba.Amf.Attach as Handlers
use g_core_rest_sba.Ran.Context as Ran
use g_core_rest_sba.Attach.Network.{core}
use g_core_rest_sba.Attach.Run.{attach, attach_accepted, attach_refused, RanInRange}
use g_core_rest_sba.Attach.NasKeys.{nas_keys_agree}

abbrev pub phone : Ran.RanContext
phone = record {
  emm_state = 0;
  ecm_state = 0;
  imsi = 119000000003;
  guti = 0;
  ip_addr = [];
  enodeb_s1ap_ue_id = 3;
  mme_s1ap_ue_id = 0;
  tai = 1;
  tai_list = [];
  tau_timer = 0;
  key = 3;
  k_asme = 0;
  ksi_asme = 7;
  k_nas_enc = 0;
  k_nas_int = 0;
  nas_enc_algo = 1;
  nas_int_algo = 1;
  count = 1;
  bearer = 0;
  dir = 0;
  apn_in_use = 0;
  eps_bearer_id = 0;
  e_rab_id = 0;
  s1_uteid_ul = 0;
  s1_uteid_dl = 0;
  mcc = 1;
  mnc = 1;
  plmn_id = 11;
  msisdn = 9000000003;
  nw_capability = 1;
  enodeb_id = 0;
  handover_target_enodeb_id = 0;
  indirect_s1_uteid_ul = 0;
}

phone-RanInRange : RanInRange phone
phone-RanInRange = record {
  imsi = omega arith;
  tai = omega arith;
  ksi_asme = omega arith;
  nw_capability = omega arith;
  enodeb_s1ap_ue_id = omega arith;
  key = omega arith;
}

-- A database that has the same key and random number for every subscriber.
abbrev pub database : ℕ → Map ℕ (ℕ × ℕ)
database key imsi = some (key, 77)

abbrev pub amf : Amf
unfolding new_amf
amf = new_amf ids (codes "10.0.0.2") (codes "10.0.0.3") 9

abbrev udm : ℕ → Udm
unfolding new_udm
udm key = new_udm (database key) empty 9

-- An SMF and a UPF that never answer: the authentication does not ask them.
abbrev smf : Routes Udm objects.Text
smf route s body = ok (s, none)

abbrev upf : N4 Udm
upf s m = ok (s, none)

attach_accepted_example :
    (c' : Ran.RanContext) × (b : Amf) × (v : Udm) × (m : Packet) × (attach objects padding smf upf
        blank phone amf
        (udm 3)
        blank
      ≡ ok (c', b, v, true, to_ue m ∷ []))
    × Message padding m (images (command_items (ctx v 1111119000000003))) 2 3 1
    × (b.s1amf_id 1 ≡ some 1111119000000003)
    × ((ctx v 1111119000000003).k_asme ≡ c'.k_asme)
unfolding amf udm
attach_accepted_example =
    attach_accepted objects padding smf upf blank phone amf (udm 3) blank 3 77 1111119000000003
      blank-S1apInRange phone-RanInRange (omega arith) (get_guti_lem 3 (omega arith)) refl refl refl
      (omega arith) (omega arith)

attach_refused_example :
    (c' : Ran.RanContext) × (b : Amf) × (v : Udm) × (attach objects padding smf upf blank phone amf
        (udm 4)
        blank
      ≡ ok (c', b, v, false, []))
unfolding amf udm
attach_refused_example =
    attach_refused objects padding smf upf blank phone amf (udm 4) blank 4 77 1111119000000003
      blank-S1apInRange phone-RanInRange (omega arith) (get_guti_lem 3 (omega arith)) refl
      (omega arith)

nas_keys_example :
    (v : Udm) × (w : Udm) × (b : Amf) × (Handlers.set_crypt_context objects
        (core objects)
        (new_udm (database 3) empty 9)
        5
      ≡ ok v)
    × (Handlers.set_integrity_context objects (core objects) amf v 5 ≡ ok (b, w))
    × ((ctx w 5).k_nas_enc ≡ (Ran.set_crypt_context phone).k_nas_enc)
    × ((ctx w 5).k_nas_int ≡ (Ran.set_integrity_context phone).k_nas_int)
unfolding ctx new_udm
nas_keys_example =
    nas_keys_agree objects (new_udm (database 3) empty 9) amf 5 phone
      (new_udm-Counters (database 3) empty 9) refl refl refl refl refl refl

-- A UDM before and after the request for the encryption key of GUTI 5.
abbrev before : Udm
before = new_udm (database 3) empty 9

abbrev keyed : Udm
keyed = set_ctx before 5 (record (ctx before 5) { nas_enc_algo = 1; k_nas_enc = 3 })

abbrev request : objects.Text
request = objects.write (objects.set_num objects.null "guti" 5)

keyed_lem : handle objects "/Nudm_UECM/UECtx/SetCrypt" before request ≡ ok (keyed, some (200, none))
unfolding handle callback ue_ctx_request_set_crypt_context new_udm ctx new_ctx
keyed_lem = refl

serve-Counters_example : Counters keyed
serve-Counters_example =
    serve-Counters objects (("/Nudm_UECM/UECtx/SetCrypt", request) ∷ []) (database 3) empty 9 keyed
      (bind_ok _ keyed_lem refl)

handle-Own_example : Own 5 before keyed
handle-Own_example =
    handle-Own objects "/Nudm_UECM/UECtx/SetCrypt" before keyed request
      (objects.set_num objects.null "guti" 5) (some (200, none)) refl keyed_lem
