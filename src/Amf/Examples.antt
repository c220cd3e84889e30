-- ===== src/Amf/Examples.antt =====
-- The AMF at concrete inputs.
use g_core_rest_sba.Base.{
  ℕ, ◌+◌, ◌≡◌, ◌≢◌, refl, sym, ◌∙◌, subst, codes, inl, inr, none, some, List, [], ◌∷◌, arith, map,
}
use g_core_rest_sba.Base.Map.{put, empty}
use g_core_rest_sba.Base.Stop.{ok, stop, zero_guti, ◌>>=◌, bind_ok}
use g_core_rest_sba.Packet.Buffer.{Packet, deliver, extract_u64}
use g_core_rest_sba.Packet.Items.{word, long, kind, images}
use g_core_rest_sba.Packet.Message.{build_s1ap, parse_s1ap, ArrivedS1, s1ap_arrives, Reads-s1ap_hdr}
use g_core_rest_sba.Packet.Codec.{le_bytes}
use g_core_rest_sba.Packet.Examples.{blank, blank-S1apInRange, blank-GtpInRange}
use g_core_rest_sba.Net.Udp.{N4}
use g_core_rest_sba.Rest.{Routes}
use g_core_rest_sba.Telecom.Identity.{ids, get_guti, get_guti_lem}
use g_core_rest_sba.Json.Examples.{objects}
use g_core_rest_sba.Security.Examples.{padding}
use g_core_rest_sba.Udm.State.{Udm, new_udm}
use g_core_rest_sba.Upf.State.{Upf, new_upf}
use g_core_rest_sba.Upf.Addresses.{set_ip_addrs}
use g_core_rest_sba.Smf.Release.{n4}
use g_core_rest_sba.Security.Filled.{filled, filled-Reads}
use g_core_rest_sba.Packet.Header.{S1apInRange}
use g_core_rest_sba.Attach.Challenge.{request_items, challenge_items, challenge_lem}
use g_core_rest_sba.Amf.Attach.{handle_initial_attach}
use g_core_rest_sba.Amf.Handover.{setup_indirect_tunnel}
use g_core_rest_sba.Attach.Network.{core}
use g_core_rest_sba.Attach.Examples.{database}
use g_core_rest_sba.Amf.State.{Amf, to_source, new_amf}
use g_core_rest_sba.Amf.Server.{handle_ue}
use g_core_rest_sba.Amf.Numbers.{Sound, new_amf-Sound}
use g_core_rest_sba.Amf.Serving.{serve-Sound}
use g_core_rest_sba.Amf.Admission.{attach_number, unknown_ue_stops, unknown_type_ignored}
use g_core_rest_sba.Amf.Tunnel.{setup_takes_first}

abbrev amf : Amf
unfolding new_amf
amf = new_amf ids (codes "10.0.0.2") (codes "10.0.0.3") 9

abbrev udm : Udm
unfolding new_udm
udm = new_udm (database 3) empty 9

-- An SMF and a UPF that never answer.
abbrev smf : Routes Udm objects.Text
smf route s body = ok (s, none)

abbrev upf : N4 Udm
upf s m = ok (s, none)

unknown_ue_stops_example :
    (build_s1ap (long 9 ∷ []) 2 7 1 blank >>= λ m.
    handle_ue objects padding (core objects) smf upf amf udm (deliver m blank))
    ≡ stop zero_guti
unfolding amf new_amf le_bytes
unknown_ue_stops_example =
    unknown_ue_stops objects padding (core objects) smf upf amf udm blank blank (long 9 ∷ []) 2 7 1
      blank-S1apInRange (omega arith, tt) (omega arith) (omega arith) (omega arith) (omega arith)
      (omega arith) refl (omega arith) (omega arith)

unknown_type_ignored_example :
    (build_s1ap (long 9 ∷ []) 6 7 1 blank >>= λ m.
    handle_ue objects padding (core objects) smf upf amf udm (deliver m blank))
    ≡ ok (1, amf, udm, [])
unfolding le_bytes
unknown_type_ignored_example =
    unknown_type_ignored objects padding (core objects) smf upf amf udm blank blank (long 9 ∷ []) 6
      7 1 blank-S1apInRange (omega arith, tt) (omega arith) (omega arith) (omega arith)
      (omega arith) (inr (omega arith, inr (inl refl)))

-- Two packets: a closed connection, and a message of no known type.
abbrev closed : Packet
closed = record blank { len = 0 }

serve-Sound_example : Sound 2 amf
unfolding handle_ue amf
serve-Sound_example =
    serve-Sound objects padding (core objects) smf upf ids (codes "10.0.0.2") (codes "10.0.0.3") 9
      (closed ∷ closed ∷ []) udm udm amf (omega arith) refl

-- The request of simulated UE number 3, its header read.
abbrev request : Packet
unfolding le_bytes
request = record (filled blank (images (request_items 119000000003 1 7 1))) {
  s1ap_hdr = record (blank.s1ap_hdr) { msg_type = 1; enodeb_s1ap_ue_id = 3 };
}

request-S1apInRange : S1apInRange request.s1ap_hdr
unfolding request
request-S1apInRange = ground arith

accepted :
    (b : Amf) × (t : Udm) × (ms : List Packet) × (handle_initial_attach objects
        (core objects)
        amf
        udm
        request
      ≡ ok (b, t, ms))
unfolding amf new_amf udm new_udm request le_bytes
accepted =
    let (b, t, w, e, same, _, _, _, _, _) =
      challenge_lem objects amf udm request 119000000003 1 7 1 3 77 1111119000000003
        request-S1apInRange (omega arith, (omega arith, (omega arith, (omega arith, tt))))
        (Reads-s1ap_hdr _ request.s1ap_hdr _
          (filled-Reads blank (images (request_items 119000000003 1 7 1)) (omega arith)))
        (get_guti_lem 3 (omega arith)) refl in
    let (m, _, em, _, _, _) =
      s1ap_arrives w (challenge_items 3 7) 1 3 1
        (subst S1apInRange {x = request.s1ap_hdr} (sym same) request-S1apInRange)
        (omega arith, (omega arith, (omega arith, tt))) (omega arith) (omega arith) (omega arith)
        (omega arith) blank in
    (b, t, m ∷ [], e ∙ bind_ok _ em refl)

attach_number_example :
    (imsi guti autn rand_num ksi : ℕ) × (rest w m : Packet) × (extract_u64 request
      ≡ ok (imsi, rest))
    × (get_guti amf.amf_ids.guamfi imsi ≡ ok guti)
    × (accepted.0.ue_count ≡ 0 + 1)
    × (amf.s1amf_id accepted.0.ue_count ≡ none)
    × (accepted.0.s1amf_id accepted.0.ue_count ≡ some guti)
    × ((mme : ℕ) → mme ≢ accepted.0.ue_count → accepted.0.s1amf_id mme ≡ amf.s1amf_id mme)
    × (build_s1ap (long autn ∷ long rand_num ∷ long ksi ∷ []) 1 3 accepted.0.ue_count w ≡ ok m)
    × (accepted.2 ≡ m ∷ [])
unfolding amf new_amf request
attach_number_example =
    attach_number objects padding (core objects) smf upf amf udm 0 request accepted.0 accepted.1
      accepted.2 (new_amf-Sound ids (codes "10.0.0.2") (codes "10.0.0.3") 9) (omega arith)
      accepted.3

-- The acknowledgement of a target eNodeB whose downlink TEID is 300, its header read.
abbrev acknowledged : Packet
unfolding le_bytes
acknowledged = record (filled blank (le_bytes 4 300)) {
  s1ap_hdr = record (blank.s1ap_hdr) { msg_type = 8; enodeb_s1ap_ue_id = 7; mme_s1ap_ue_id = 2 };
}

acknowledged_arrived : ArrivedS1 acknowledged 8 7 2 (word 300 ∷ [])
unfolding acknowledged le_bytes
acknowledged_arrived = record {
  is_type = refl;
  is_enodeb = refl;
  is_mme = refl;
  in_range = ground arith;
  reads =
      Reads-s1ap_hdr _ acknowledged.s1ap_hdr _ (filled-Reads blank (le_bytes 4 300) (omega arith));
}

abbrev started : Upf
unfolding new_upf
started = new_upf (set_ip_addrs empty) 9

setup_takes_first_example :
    (b : Amf) × (v : Upf) × (m : Packet) × (setup_indirect_tunnel
        (n4 (5, 6) blank)
        amf
        started
        acknowledged
      ≡ ok (b, v, to_source m ∷ []))
    × ((z : Packet) → parse_s1ap (map kind (word 1 ∷ [])) (deliver m z) ≡ ok (8, 7, 2, word 1 ∷ []))
    × (v.s1_id ≡ put started.s1_id 1 0)
unfolding amf new_amf started new_upf acknowledged le_bytes
setup_takes_first_example =
    setup_takes_first 0 amf started (5, 6) acknowledged blank 300 7 2
      (new_amf-Sound ids (codes "10.0.0.2") (codes "10.0.0.3") 9) acknowledged_arrived
      blank-GtpInRange (omega arith) refl refl
