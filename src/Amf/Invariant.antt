-- ===== src/Amf/Invariant.antt =====
-- What every handler of src/amf.cpp, leaves of the tables, whatever the peers answer.
use g_core_rest_sba.Base.{ℕ, ◌+◌, ◌^◌, ◌<◌, ◌≡◌, refl, Bool, List, arith}
use g_core_rest_sba.Base.Words.{u32, u64}
use g_core_rest_sba.Base.Map.{put}
use g_core_rest_sba.Base.Stop.{ok}
use g_core_rest_sba.Packet.Buffer.{Packet}
use g_core_rest_sba.Net.Udp.{N4}
use g_core_rest_sba.Json.{Json}
use g_core_rest_sba.Rest.{Routes}
use g_core_rest_sba.Security.Openssl.{Openssl}
use g_core_rest_sba.Amf.State.{Amf, Peers, Sent, local, set_local, rem_local, rem_s1amf_id}
use g_core_rest_sba.Amf.Attach.{handle_initial_attach, handle_autn, set_integrity_context}
use g_core_rest_sba.Amf.Security.{handle_security_mode_cmd, handle_location_update}
use g_core_rest_sba.Amf.Session.{set_upf_info, handle_create_session}
use g_core_rest_sba.Amf.Bearer.{handle_modify_bearer, handle_detach}
use g_core_rest_sba.Amf.Handover.{
  request_target_ran, handle_handover, setup_indirect_tunnel, handle_handover_completion,
  teardown_indirect_tunnel,
}
use g_core_rest_sba.Amf.Numbers.{
  Sound, local-NoTunnel, set_local-Sound, rem_local-Sound, rem_s1amf_id-Sound, enter-Sound,
  relocated-Sound,
}

module _ (J : Json) (O : Openssl) {S : Type 0} (net : Peers S J.Text) (smf : Routes S J.Text)
    (upf : N4 S) (n : ℕ) where
  module _ (a : Amf) (h : Sound n a) where
    removed : (mme guti : ℕ) → Sound n (rem_local (rem_s1amf_id a mme) guti)
    removed mme guti = rem_local-Sound _ guti (rem_s1amf_id-Sound a mme h)

    -- A local context that is read, and created if it is missing.
    touched : (guti : ℕ) → Sound n (set_local a guti (local a guti))
    touched guti = set_local-Sound a guti (local a guti) h (local-NoTunnel a guti h)

    module _ (s t : S) (b : Amf) where
      set_integrity_context-Sound :
          (guti : ℕ) → set_integrity_context J net a s guti ≡ ok (b, t) → Sound n b
      unfolding set_integrity_context
      set_integrity_context-Sound guti e = grind (arith, set_local-Sound, local-NoTunnel)

      set_upf_info-Sound : (guti : ℕ) → set_upf_info J O net smf a s guti ≡ ok (b, t) → Sound n b
      unfolding set_upf_info
      set_upf_info-Sound guti e = grind (arith, set_local-Sound, local-NoTunnel)

      module _ (pkt : Packet) where
        pub handle_autn-Sound : (r : Bool) → handle_autn J net a s pkt ≡ ok (b, t, r) → Sound n b
        unfolding handle_autn
        handle_autn-Sound r e = grind (arith, removed)

        pub handle_location_update-Sound :
            handle_location_update J O net a s pkt ≡ ok (b, t) → Sound n b
        unfolding handle_location_update
        handle_location_update-Sound e = grind (arith, set_local-Sound, local-NoTunnel)

        pub handle_modify_bearer-Sound :
            handle_modify_bearer J O net smf a s pkt ≡ ok (b, t) → Sound n b
        unfolding handle_modify_bearer
        handle_modify_bearer-Sound e = grind (arith, set_local-Sound, local-NoTunnel)

        pub handle_detach-Sound :
            (ms : List Packet) → handle_detach J O net smf a s pkt ≡ ok (b, t, ms) → Sound n b
        unfolding handle_detach
        handle_detach-Sound ms e = grind (arith, removed)

        pub handle_handover-Sound :
            (ms : List Sent) → handle_handover a pkt ≡ ok (b, ms) → Sound n b
        unfolding handle_handover request_target_ran
        handle_handover-Sound ms e = grind (arith, touched)

        pub setup_indirect_tunnel-Sound :
            (ms : List Sent) → setup_indirect_tunnel upf a s pkt ≡ ok (b, t, ms) → Sound n b
        unfolding setup_indirect_tunnel
        setup_indirect_tunnel-Sound ms e = grind (arith, touched)

        pub handle_handover_completion-Sound :
            (ms : List Sent) → handle_handover_completion upf a s pkt ≡ ok (b, t, ms) → Sound n b
        unfolding handle_handover_completion
        handle_handover_completion-Sound ms e = grind (arith, touched)

        pub teardown_indirect_tunnel-Sound :
            (ms : List Sent) → teardown_indirect_tunnel upf a s pkt ≡ ok (b, t, ms) → Sound n b
        unfolding teardown_indirect_tunnel
        teardown_indirect_tunnel-Sound ms e = grind (arith, touched)

  module _ (a : Amf) (h : Sound n a) (s t : S) (b : Amf) (pkt : Packet) where
    pub handle_security_mode_cmd-Sound :
        (ms : List Packet) → handle_security_mode_cmd J O net a s pkt ≡ ok (b, t, ms) → Sound n b
    unfolding handle_security_mode_cmd
    handle_security_mode_cmd-Sound ms e = grind (arith, set_integrity_context-Sound)

    pub handle_create_session-Sound :
        (ms : List Packet) → handle_create_session J O net smf a s pkt ≡ ok (b, t, ms) → Sound n b
    unfolding handle_create_session
    handle_create_session-Sound ms e =
        grind (arith, set_upf_info-Sound, set_local-Sound, local-NoTunnel, relocated-Sound)

    abbrev entered : ℕ → Amf
    entered guti =
        let count = u64 (a.ue_count + 1) in
        record a { ue_count = count; s1amf_id = put a.s1amf_id (u32 count) guti }

    entered-Sound : n + 1 < 2 ^ 32 → (guti : ℕ) → Sound (n + 1) (entered guti)
    entered-Sound small guti =
        let count : u64 (a.ue_count + 1) ≡ a.ue_count + 1 = omega (arith, h.counted) in
        let number : u32 (a.ue_count + 1) ≡ a.ue_count + 1 = omega (arith, h.counted) in
        rw (count, number) (enter-Sound a (a.ue_count + 1) guti refl h)

    pub handle_initial_attach-Sound :
        (ms : List Packet)
        → n + 1 < 2 ^ 32
        → handle_initial_attach J net a s pkt ≡ ok (b, t, ms)
        → Sound (n + 1) b
    unfolding handle_initial_attach
    handle_initial_attach-Sound ms small e =
        grind (arith, entered-Sound, set_local-Sound, local-NoTunnel)
