-- ===== src/Amf/Server.antt =====
-- `handle_ue` of src/amf_server.cpp: a packet from the RAN, by its header. Every handler gets a copy.
use g_core_rest_sba.Base.{ℕ, List, [], map, ◌==◌, if◌then◌else◌}
use g_core_rest_sba.Base.Stop.{Result, ok, ◌>>=◌}
use g_core_rest_sba.Packet.Buffer.{Packet, copy, extract_s1ap_hdr}
use g_core_rest_sba.Net.Udp.{N4}
use g_core_rest_sba.Net.Stream.{is_closed}
use g_core_rest_sba.Json.{Json}
use g_core_rest_sba.Rest.{Routes}
use g_core_rest_sba.Security.Openssl.{Openssl}
use g_core_rest_sba.Amf.State.{Amf, Peers, Sent, to_ue}
use g_core_rest_sba.Amf.Attach.{handle_initial_attach, handle_autn}
use g_core_rest_sba.Amf.Security.{
  handle_security_mode_cmd, handle_security_mode_complete, handle_location_update,
}
use g_core_rest_sba.Amf.Session.{handle_create_session}
use g_core_rest_sba.Amf.Bearer.{handle_attach_complete, handle_modify_bearer, handle_detach}
use g_core_rest_sba.Amf.Handover.{
  handle_handover, setup_indirect_tunnel, handle_handover_completion, teardown_indirect_tunnel,
}

module _ (J : Json) (O : Openssl) {S : Type 0} (net : Peers S J.Text) (smf : Routes S J.Text)
    (upf : N4 S) where
  abbrev pub Turn : Type 0
  Turn = Result (Amf × S × List Sent)

  abbrev pub for_ue : Result (Amf × S × List Packet) → Turn
  for_ue turn = do (a, s, ms) ← turn; ok (a, s, map to_ue ms)

  -- The cases of the switch that run more than one handler.
  unfoldable pub authenticated : Amf → S → Packet → Turn
  authenticated a s p = do
    q ← copy p
    (a1, s1, res) ← handle_autn J net a s q
    if res
        then (do r ← copy p; for_ue (handle_security_mode_cmd J O net a1 s1 r))
        else ok (a1, s1, [])

  unfoldable pub secured : Amf → S → Packet → Turn
  secured a s p = do
    q ← copy p
    (s1, res) ← handle_security_mode_complete J O net a s q
    if res
        then (do
          r ← copy p
          (a2, s2) ← handle_location_update J O net a s1 r
          t ← copy p
          for_ue (handle_create_session J O net smf a2 s2 t))
        else ok (a, s1, [])

  unfoldable pub completed : Amf → S → Packet → Turn
  completed a s p = do
    q ← copy p
    s1 ← handle_attach_complete J O net smf a s q
    r ← copy p
    (a2, s2) ← handle_modify_bearer J O net smf a s1 r
    ok (a2, s2, [])

  -- The switch for a UE that has a number.
  unfoldable pub known_ue : ℕ → Amf → S → Packet → Turn
  known_ue msg_type a s p =
      if msg_type == 2
      then authenticated a s p
      else if msg_type == 3
      then secured a s p
      else if msg_type == 4
      then completed a s p
      else if msg_type == 5
      then (do q ← copy p; for_ue (handle_detach J O net smf a s q))
      else if msg_type == 7
      then (do q ← copy p; (a1, ms) ← handle_handover a q; ok (a1, s, ms))
      else if msg_type == 8
      then (do q ← copy p; setup_indirect_tunnel upf a s q)
      else if msg_type == 9
      then (do q ← copy p; handle_handover_completion upf a s q)
      else if msg_type == 10
      then (do q ← copy p; teardown_indirect_tunnel upf a s q)
      else ok (a, s, [])

  -- The switches for a UE without a number and for one with a number.
  unfoldable pub turn : Amf → S → Packet → Turn
  unfolding known_ue
  turn a s p =
      if p.s1ap_hdr.mme_s1ap_ue_id == 0
      then (if p.s1ap_hdr.msg_type == 1
          then (do q ← copy p; for_ue (handle_initial_attach J net a s q))
          else ok (a, s, []))
      else known_ue p.s1ap_hdr.msg_type a s p

  -- A received packet; the connection is closed, and 0 returned, when there is none.
  unfoldable pub handle_ue : Amf → S → Packet → Result (ℕ × Amf × S × List Sent)
  unfolding turn
  handle_ue a s received =
      if is_closed received.len
      then ok (0, a, s, [])
      else (do p ← extract_s1ap_hdr received; (a1, s1, ms) ← turn a s p; ok (1, a1, s1, ms))
