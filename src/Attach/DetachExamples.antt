-- ===== src/Attach/DetachExamples.antt =====
-- The detach of a UE that names the GUTI of another UE, the only one with a session.
use g_core_rest_sba.Base.{ℕ, codes, ◌≡◌, ap, refl, some, true, false, arith}
use g_core_rest_sba.Base.Map.{put, empty}
use g_core_rest_sba.Base.Stop.{ok}
use g_core_rest_sba.Packet.Header.{S1apInRange}
use g_core_rest_sba.Packet.Examples.{blank, blank-GtpInRange}
use g_core_rest_sba.Telecom.Identity.{ids}
use g_core_rest_sba.Json.Examples.{objects}
use g_core_rest_sba.Udm.State.{UeContext, Udm, new_udm, new_ctx, ctx, set_ctx}
use g_core_rest_sba.Udm.Client.{ctx-set_ctx}
use g_core_rest_sba.Upf.State as Upf
use g_core_rest_sba.Upf.Changes.{without}
use g_core_rest_sba.Upf.Examples.{one_session, one_session-Linked}
use g_core_rest_sba.Smf.Handlers.{Smf}
use g_core_rest_sba.Smf.Server.{Memory}
use g_core_rest_sba.Amf.State.{Amf, new_amf, rem_local, rem_s1amf_id}
use g_core_rest_sba.Ran.Context.{RanContext}
use g_core_rest_sba.Security.Examples.{padding}
use g_core_rest_sba.Attach.Examples.{phone}
use g_core_rest_sba.Attach.Detached.{depart, detach_releases}

-- The UE has the number 1 and the GUTI 10; the session of the GUTI 9 has the TEID 7 at the UPF.
abbrev session_ctx : UeContext
session_ctx = record (new_ctx 0) {
  eps_bearer_id = 5;
  s11_cteid_sgw = 7;
  s11_cteid_upf = 7;
  tai = 1;
}

abbrev session_udm : Udm
session_udm = set_ctx (new_udm empty empty 0) 9 session_ctx

abbrev amf_of_ue : Amf
unfolding new_amf
amf_of_ue = record (new_amf ids (codes "10.0.0.2") (codes "10.0.0.3") 9) {
  s1amf_id = put empty 1 10;
}

abbrev ue : RanContext
ue = record phone { mme_s1ap_ue_id = 1; guti = 9 }

abbrev smf : Smf
smf = record {
  upf_s1_ip_addr = codes "10.0.0.3";
  upf_s1_port = 7100;
  g_trafmon_ip_addr = codes "10.0.0.2";
  g_trafmon_port = 4000;
}

abbrev memory : Memory
memory = record {
  create_request = record {
    guti = 0;
    imsi = 0;
    s11_cteid_mme = 0;
    eps_bearer_id = 0;
    apn_in_use = 0;
    tai = 0;
  };
  update_request = record {
    guti = 0;
    s1_uteid_dl = 0;
    eps_bearer_id = 0;
    g_trafmon_ip_addr = codes "10.0.0.2";
    g_trafmon_port = 0;
  };
  release_request = record { guti = 0; eps_bearer_id = 0; tai = 0 };
  res = false;
  pkt = blank;
}

blank-S1apInRange : S1apInRange blank.s1ap_hdr
blank-S1apInRange = ground arith

stored : ctx session_udm 9 ≡ session_ctx
stored = ctx-set_ctx (new_udm empty empty 0) 9 session_ctx

detach_releases_example :
    (c : Upf.UeContext) × (one_session.ue_ctx 3 ≡ some c)
    × (d : Udm) × ((n : ℕ) → ctx d n ≡ ctx session_udm n)
    × (depart objects padding
          (1, 2)
          blank
          memory
          ue
          amf_of_ue
          (smf, session_udm, one_session)
          blank
          blank
          blank
        ≡ ok (
          rem_local (rem_s1amf_id amf_of_ue 1) 9,
          (smf, d, without one_session (ctx session_udm 9).s11_cteid_sgw 3 c.ip_addr),
          true,
        ))
unfolding amf_of_ue new_amf ctx set_ctx new_udm new_ctx
detach_releases_example =
    detach_releases objects padding (1, 2) blank memory ue amf_of_ue (smf, session_udm, one_session)
      blank blank blank 10 3 blank-GtpInRange blank-S1apInRange (omega arith)
      (λ h. absurd (omega arith)) (omega arith) (omega arith) (omega arith)
      (λ h. absurd (omega arith)) refl (λ h. absurd (omega arith)) (omega arith) (omega arith)
      (omega arith) one_session-Linked (ap (λ c. one_session.s11_id c.s11_cteid_sgw) stored)
