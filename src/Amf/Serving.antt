-- ===== src/Amf/Serving.antt =====
-- The tables of the AMF over any sequence of packets that `handle_ue` of src/amf_server.cpp serves.
use g_core_rest_sba.Base.{
  ℕ, true, false, map, Bytes, length, subst, if◌then◌else◌, ◌==◌, ◌+◌, ◌^◌, ◌<◌, ◌≡◌, refl, Bool,
  List, [], ◌∷◌, arith,
}
use g_core_rest_sba.Base.Stop.{Result, ok, stop, ◌>>=◌, bind_inv}
use g_core_rest_sba.Packet.Buffer.{Packet, copy, extract_s1ap_hdr}
use g_core_rest_sba.Net.Stream.{is_closed}
use g_core_rest_sba.Net.Udp.{N4}
use g_core_rest_sba.Json.{Json}
use g_core_rest_sba.Rest.{Routes}
use g_core_rest_sba.Security.Openssl.{Openssl}
use g_core_rest_sba.Amf.State.{new_amf, Amf, Peers, Sent, to_ue}
use g_core_rest_sba.Amf.Attach.{handle_autn}
use g_core_rest_sba.Amf.Security.{handle_security_mode_complete, handle_location_update}
use g_core_rest_sba.Amf.Bearer.{handle_attach_complete, handle_modify_bearer}
use g_core_rest_sba.Amf.Handover.{handle_handover}
use g_core_rest_sba.Amf.Server.{
  for_ue, authenticated, secured, completed, known_ue, turn, handle_ue,
}
use g_core_rest_sba.Amf.Numbers.{Sound, weaken-Sound, new_amf-Sound}
use g_core_rest_sba.Telecom.Identity.{AmfIds}
use g_core_rest_sba.Amf.Invariant.{
  handle_autn-Sound, handle_location_update-Sound, handle_modify_bearer-Sound, handle_detach-Sound,
  handle_handover-Sound, setup_indirect_tunnel-Sound, handle_handover_completion-Sound,
  teardown_indirect_tunnel-Sound, handle_security_mode_cmd-Sound, handle_create_session-Sound,
  handle_initial_attach-Sound,
}

turn_amf : {S X : Type 0} (y z : Amf × S × X) → ok y ≡ ok z → y.0 ≡ z.0
turn_amf y z e = cc

module _ (J : Json) (O : Openssl) {S : Type 0} (net : Peers S J.Text) (smf : Routes S J.Text)
    (upf : N4 S) where
  module _ (n : ℕ) (a : Amf) (h : Sound n a) (s t : S) (b : Amf) (pkt : Packet)
      (ms : List Sent) where
    choose :
        (c : Bool) {x y : Result (Amf × S × List Sent)}
        → (x ≡ ok (b, t, ms) → Sound n b)
        → (y ≡ ok (b, t, ms) → Sound n b)
        → (if c then x else y) ≡ ok (b, t, ms)
        → Sound n b
    choose true hx hy e = hx e
    choose false hx hy e = hy e

    -- What is sent to the UE is no part of the tables.
    sending :
        (m : Result (Amf × S × List Packet))
        → ((c : Amf) (r : S) (ps : List Packet) → m ≡ ok (c, r, ps) → Sound n c)
        → for_ue J O net smf upf m ≡ ok (b, t, ms)
        → Sound n b
    sending (stop why) k e = cc
    sending (ok (c, r, ps)) k e =
        subst (Sound n) (turn_amf (c, r, map to_ue ps) (b, t, ms) e) (k c r ps refl)

    unchanged :
        (r : S) → ◌≡◌ {A = Result (Amf × S × List Sent)} (ok (a, r, [])) (ok (b, t, ms)) → Sound n b
    unchanged r e = subst (Sound n) (turn_amf (a, r, []) (b, t, ms) e) h

    authenticated-Sound : authenticated J O net smf upf a s pkt ≡ ok (b, t, ms) → Sound n b
    unfolding authenticated
    authenticated-Sound e =
        let (q, _, f) = bind_inv (copy pkt) _ e in
        let ((a1, s1, res), g, k) = bind_inv (handle_autn J net a s q) _ f in
        let h1 = handle_autn-Sound J O net smf upf n a h s s1 a1 q res g in
        choose res
          (λ l.
            let (w, _, m) = bind_inv (copy pkt) _ l in
            sending _
              (λ c r ps i. handle_security_mode_cmd-Sound J O net smf upf n a1 h1 s1 r c w ps i) m)
          (λ l. subst (Sound n) (turn_amf (a1, s1, []) (b, t, ms) l) h1) k

    secured-Sound : secured J O net smf upf a s pkt ≡ ok (b, t, ms) → Sound n b
    unfolding secured
    secured-Sound e =
        let (q, _, f) = bind_inv (copy pkt) _ e in
        let ((s1, res), g, k) = bind_inv (handle_security_mode_complete J O net a s q) _ f in
        choose res
          (λ l.
            let (p1, _, l1) = bind_inv (copy pkt) _ l in
            let ((a2, s2), l2, l3) = bind_inv (handle_location_update J O net a s1 p1) _ l1 in
            let (p2, _, l4) = bind_inv (copy pkt) _ l3 in
            let h2 = handle_location_update-Sound J O net smf upf n a h s1 s2 a2 p1 l2 in
            sending _
              (λ c r ps i. handle_create_session-Sound J O net smf upf n a2 h2 s2 r c p2 ps i) l4)
          (unchanged s1) k

    completed-Sound : completed J O net smf upf a s pkt ≡ ok (b, t, ms) → Sound n b
    unfolding completed
    completed-Sound e =
        let (q, _, f) = bind_inv (copy pkt) _ e in
        let (s1, _, g) = bind_inv (handle_attach_complete J O net smf a s q) _ f in
        let (w, _, k) = bind_inv (copy pkt) _ g in
        let ((c, r), l, m) = bind_inv (handle_modify_bearer J O net smf a s1 w) _ k in
        subst (Sound n) (turn_amf (c, r, []) (b, t, ms) m)
          (handle_modify_bearer-Sound J O net smf upf n a h s1 r c w l)

    known_ue-Sound :
        (msg_type : ℕ) → known_ue J O net smf upf msg_type a s pkt ≡ ok (b, t, ms) → Sound n b
    unfolding known_ue
    known_ue-Sound msg_type =
        let gone = handle_detach-Sound J O net smf upf n a h s in
        let moved = handle_handover-Sound J O net smf upf n a h s t in
        let set_up = setup_indirect_tunnel-Sound J O net smf upf n a h s t b in
        let over = handle_handover_completion-Sound J O net smf upf n a h s t b in
        let torn = teardown_indirect_tunnel-Sound J O net smf upf n a h s t b in
        choose (msg_type == 2) authenticated-Sound (
          choose (msg_type == 3) secured-Sound (
            choose (msg_type == 4) completed-Sound (
              choose (msg_type == 5)
                (λ e.
                  let (q, _, f) = bind_inv (copy pkt) _ e in
                  sending _ (λ c r ps i. gone r c q ps i) f)
                (choose (msg_type == 7)
                  (λ e.
                    let (q, _, f) = bind_inv (copy pkt) _ e in
                    let ((c, w), g, k) = bind_inv (handle_handover a q) _ f in
                    subst (Sound n) (turn_amf (c, s, w) (b, t, ms) k) (moved c q w g))
                  (choose (msg_type == 8) (λ e. grind (arith, set_up))
                    (choose (msg_type == 9) (λ e. grind (arith, over))
                      (choose (msg_type == 10) (λ e. grind (arith, torn)) (unchanged s))))))))

  ue_amf : (y z : ℕ × Amf × S × List Sent) → ok y ≡ ok z → y.1 ≡ z.1
  ue_amf y z e = cc

  module _ (n : ℕ) (small : n + 1 < 2 ^ 32) (a : Amf) (h : Sound n a) (s t : S) (b : Amf)
      (ms : List Sent) where
    turn-Sound : (p : Packet) → turn J O net smf upf a s p ≡ ok (b, t, ms) → Sound (n + 1) b
    unfolding turn
    turn-Sound p =
        let later = weaken-Sound a h in
        choose (n + 1) a later s t b p ms (p.s1ap_hdr.mme_s1ap_ue_id == 0)
          (choose (n + 1) a later s t b p ms (p.s1ap_hdr.msg_type == 1)
            (λ e.
              let (q, _, f) = bind_inv (copy p) _ e in
              sending (n + 1) a later s t b p ms _
                (λ c r ps i. handle_initial_attach-Sound J O net smf upf n a h s r c q ps small i)
                f)
            (unchanged (n + 1) a later s t b p ms s))
          (λ e. weaken-Sound b (known_ue-Sound n a h s t b p ms p.s1ap_hdr.msg_type e))

    unless_closed :
        (c : Bool) (r : ℕ) {m : Result (ℕ × Amf × S × List Sent)}
        → (m ≡ ok (r, b, t, ms) → Sound (n + 1) b)
        → (if c then ok (0, a, s, []) else m) ≡ ok (r, b, t, ms)
        → Sound (n + 1) b
    unless_closed true r k e =
        subst (Sound (n + 1)) (ue_amf (0, a, s, []) (r, b, t, ms) e) (weaken-Sound a h)
    unless_closed false r k e = k e

  handle_ue-Sound :
      (n : ℕ) (a b : Amf) (s t : S) (pkt : Packet) (r : ℕ) (ms : List Sent)
      → n + 1 < 2 ^ 32
      → Sound n a
      → handle_ue J O net smf upf a s pkt ≡ ok (r, b, t, ms)
      → Sound (n + 1) b
  unfolding handle_ue
  handle_ue-Sound n a b s t pkt r ms small h =
      unless_closed n small a h s t b ms (is_closed pkt.len) r (λ e.
        let (p, _, f) = bind_inv (extract_s1ap_hdr pkt) _ e in
        let ((c, u, ps), g, k) = bind_inv (turn J O net smf upf a s p) _ f in
        subst (Sound (n + 1)) (ue_amf (1, c, u, ps) (r, b, t, ms) k)
          (turn-Sound n small a h s u c ps p g))

  pair_amf : (y z : Amf × S) → ok y ≡ ok z → y.0 ≡ z.0
  pair_amf y z e = cc

  -- Packets served in turn.
  abbrev pub serve : Amf → S → List Packet → Result (Amf × S)
  serve a s [] = ok (a, s)
  serve a s (p ∷ ps) = handle_ue J O net smf upf a s p >>= λ x. serve x.1 x.2 ps

  from_Sound :
      (ps : List Packet) (n : ℕ) (a b : Amf) (s t : S)
      → n + length ps < 2 ^ 32
      → Sound n a
      → serve a s ps ≡ ok (b, t)
      → Sound (n + length ps) b
  from_Sound [] n a b s t small h e =
      subst (λ k. Sound k b) {x = n} (omega arith) (subst (Sound n) (pair_amf (a, s) (b, t) e) h)
  from_Sound (p ∷ ps) n a b s t small h e =
      let ((r, c, u, ms), f, g) = bind_inv (handle_ue J O net smf upf a s p) _ e in
      let next = handle_ue-Sound n a c s u p r ms (omega arith) h f in
      let rest = from_Sound ps (n + 1) c b u t (omega arith) next g in
      subst (λ k. Sound k b) {y = n + length (p ∷ ps)} (omega arith) rest

  -- Whatever packets, fewer than 2 ^ 32, a new AMF has served, and whatever its peers answered: it
  -- has given out at most as many numbers as there were packets, each UE in its table has one of
  -- them, and every local context has 0 as the TEID at the UPF and as the uplink TEID.
  pub serve-Sound :
      (ids : AmfIds) (ran host : Bytes) (junk : ℕ) (ps : List Packet) (s t : S) (b : Amf)
      → length ps < 2 ^ 32
      → serve (new_amf ids ran host junk) s ps ≡ ok (b, t)
      → Sound (length ps) b
  serve-Sound ids ran host junk ps s t b small e =
      subst (λ k. Sound k b) {x = 0 + length ps} (omega arith)
        (from_Sound ps 0 (new_amf ids ran host junk) b s t (omega arith)
          (new_amf-Sound ids ran host junk) e)
