-- ===== src/Smf/Examples.antt =====
-- The release of the one session of a UPF, the creation of a second one, and a
-- modification of the first.
use g_core_rest_sba.Base.{codes, refl, ◌≡◌, ap, some, true, false, arith}
use g_core_rest_sba.Base.Map.{empty}
use g_core_rest_sba.Base.Stop.{ok}
use g_core_rest_sba.Packet.Examples.{blank, blank-GtpInRange}
use g_core_rest_sba.Json.Examples.{objects}
use g_core_rest_sba.Udm.State.{UeContext, Udm, new_udm, new_ctx, ctx, set_ctx}
use g_core_rest_sba.Udm.Server.{handle}
use g_core_rest_sba.Udm.Client.{ctx-set_ctx}
use g_core_rest_sba.Upf.State as Upf
use g_core_rest_sba.Upf.Changes.{without}
use g_core_rest_sba.Upf.Request.{address_of}
use g_core_rest_sba.Upf.Sessions.{Linked, Admissible}
use g_core_rest_sba.Upf.Examples.{start, start_lem, one_session, one_session-Linked}
use g_core_rest_sba.Smf.Handlers.{
  Smf, ReleaseSmContextRequest, CreateSmContextRequest, UpdateSmContextRequest,
  CreateSmContextResponse, handle_create_session, handle_modify_bearer, handle_detach,
}
use g_core_rest_sba.Smf.Release.{n4, release_lem}
use g_core_rest_sba.Smf.Creating.{begun, settled}
use g_core_rest_sba.Smf.Lifecycle.{SameSessions, session_traceless}
use g_core_rest_sba.Smf.Modification.{redirected, modifies}
use g_core_rest_sba.Packet.Buffer.{until_nul}
use g_core_rest_sba.Smf.Creation.{session_of, with_session, created, creates}

-- The UDM with the session of GUTI 9 under the control TEID 7.
abbrev session_ctx : UeContext
session_ctx = record (new_ctx 0) { s11_cteid_sgw = 7 }

abbrev session_udm : Udm
session_udm = set_ctx (new_udm empty empty 0) 9 session_ctx

abbrev request : ReleaseSmContextRequest
request = record { guti = 9; eps_bearer_id = 5; tai = 1 }

release_lem_example :
    (c : Upf.UeContext) × (one_session.ue_ctx 3 ≡ some c)
    × (handle_detach objects
          (handle objects)
          (n4 (1, 2) blank)
          blank
          false
          session_udm
          one_session
          request
        ≡ ok (
          set_ctx session_udm 9 (ctx session_udm 9),
          without one_session (ctx session_udm 9).s11_cteid_sgw 3 c.ip_addr,
          true,
        ))
release_lem_example =
    release_lem objects session_udm one_session (1, 2) blank blank false request 3 blank-GtpInRange
      one_session-Linked (λ h. absurd (omega arith)) (omega arith) (omega arith)
      (ap (λ c. one_session.s11_id c.s11_cteid_sgw)
        (ctx-set_ctx (new_udm empty empty 0) 9 session_ctx))

abbrev smf : Smf
smf = record {
  upf_s1_ip_addr = codes "10.0.0.3";
  upf_s1_port = 7100;
  g_trafmon_ip_addr = codes "10.0.0.2";
  g_trafmon_port = 4000;
}

abbrev second : CreateSmContextRequest
second = record {
  guti = 10;
  imsi = 4;
  s11_cteid_mme = 8;
  eps_bearer_id = 5;
  apn_in_use = 1;
  tai = 1;
}

second-Admissible : Admissible one_session (session_of second)
unfolding Upf.new_upf
second-Admissible = (λ h. absurd (omega arith), λ other e. cc, λ c e. cc, omega arith)

creates_example :
    (d' : Udm) × (handle_create_session objects
        (handle objects)
        (n4 (1, 2) blank)
        smf
        blank
        session_udm
        one_session
        second
      ≡ ok (
        d',
        with_session one_session second,
        created smf one_session (ctx session_udm 10) second,
      ))
    × (ctx d' 10 ≡ settled (begun (ctx session_udm 10) second) (address_of one_session 4) 8 8)
    × Linked (with_session one_session second)
creates_example =
    creates objects smf session_udm one_session (1, 2) blank blank second blank-GtpInRange
      one_session-Linked (λ h. absurd (omega arith)) (omega arith) (omega arith) (omega arith)
      (omega arith) second-Admissible

-- The UDM, once the UE has named its downlink TEID.
abbrev bearer_ctx : UeContext
bearer_ctx = record (new_ctx 0) { s11_cteid_sgw = 7; eps_bearer_id = 5; s1_uteid_dl = 30 }

abbrev bearer_udm : Udm
bearer_udm = set_ctx (new_udm empty empty 0) 9 bearer_ctx

abbrev update : UpdateSmContextRequest
update = record {
  guti = 9;
  s1_uteid_dl = 31;
  eps_bearer_id = 6;
  g_trafmon_ip_addr = codes "10.0.0.1";
  g_trafmon_port = 4000;
}

modifies_example :
    (c : Upf.UeContext) × (one_session.ue_ctx 3 ≡ some c)
    × (handle_modify_bearer objects
          (handle objects)
          (n4 (1, 2) blank)
          smf
          blank
          bearer_udm
          one_session
          update
        ≡ ok (
          record smf { g_trafmon_ip_addr = codes "10.0.0.1"; g_trafmon_port = 4000 },
          set_ctx bearer_udm 9 (ctx bearer_udm 9),
          redirected one_session 3 c (ctx bearer_udm 9).s1_uteid_dl (codes "10.0.0.1") 4000,
          true,
        ))
unfolding ctx set_ctx new_udm new_ctx until_nul
modifies_example =
    modifies objects smf bearer_udm one_session (1, 2) blank blank update 3 blank-GtpInRange
      one_session-Linked (λ h. absurd (omega arith)) (omega arith) (omega arith) (omega arith) refl
      (omega arith) refl

abbrev release_of_second : ReleaseSmContextRequest
release_of_second = record { guti = 10; eps_bearer_id = 5; tai = 1 }

session_traceless_example :
    (d1 d2 : Udm) × (v w : Upf.Upf) × (response : CreateSmContextResponse) × (handle_create_session
        objects
        (handle objects)
        (n4 (1, 2) blank)
        smf
        blank
        session_udm
        start
        second
      ≡ ok (d1, v, response))
    × (handle_detach objects (handle objects) (n4 (1, 2) blank) blank false d1 v release_of_second
        ≡ ok (d2, w, true))
    × SameSessions start w
unfolding Upf.new_upf
session_traceless_example =
    session_traceless objects smf session_udm start (1, 2) blank blank false second
      release_of_second blank-GtpInRange start_lem (λ h. absurd (omega arith))
      (λ h. absurd (omega arith)) (omega arith) (omega arith) (omega arith) (omega arith)
      (omega arith) refl (omega arith) (omega arith) refl refl refl refl
