-- ===== src/Upf/Examples.antt =====
-- A UPF with one session, at concrete inputs.
use g_core_rest_sba.Base.{
  ℕ, ◌+◌, ◌≡◌, ◌≢◌, refl, Option, none, some, [], ◌∷◌, arith, codes, subst, Bytes, ◌++◌, replicate,
  map,
}
use g_core_rest_sba.Base.Stop.{ok, stop, zero_imsi, ◌>>=◌}
use g_core_rest_sba.Base.Map.{empty}
use g_core_rest_sba.Packet.Codec.{le_bytes}
use g_core_rest_sba.Packet.Header.{GtpInRange}
use g_core_rest_sba.Packet.Buffer.{Packet, deliver, until_nul, copy, block, extract_gtp_hdr}
use g_core_rest_sba.Security.Filled.{filled, filled-Left, Holds}
use g_core_rest_sba.Ran.Traffic as Traffic
use g_core_rest_sba.Packet.Items.{kind}
use g_core_rest_sba.Packet.Message.{parse_gtp}
use g_core_rest_sba.Packet.Examples.{blank, blank-GtpInRange}
use g_core_rest_sba.Upf.State.{Upf, UeContext, new_upf, ue}
use g_core_rest_sba.Upf.Addresses.{
  ip_text, address, set_ip_addrs, first_imsi, plan-injective, set_ip_addrs_lem,
}
use g_core_rest_sba.Upf.Handlers.{handle_s11}
use g_core_rest_sba.Upf.Request.{
  create, modify, detach, setup, complete, teardown, Reply, answer, enter,
}
use g_core_rest_sba.Upf.Refinement.{request_packet, respond, request_served}
use g_core_rest_sba.Upf.UserPlane.{handle_downlink_udata, get_dst_ip_addr}
use g_core_rest_sba.Upf.Sessions.{Linked, new_upf-Linked, enter-Linked}
use g_core_rest_sba.Upf.Startup.{two_sessions, sessions_apart}
use g_core_rest_sba.Upf.Exchange.{exchange, exchange_lem, serve_all, answer_all, sessions-Linked}
use g_core_rest_sba.Upf.Changes.{handover_lem, handed_over, handle_detach_lem, without}
use g_core_rest_sba.Upf.Downlink.{downlink_lem}

-- Every subscriber has the address 172.16.1.9, and packets are for it.
abbrev plan : ℕ → Option Bytes
plan k = some (172 ∷ 16 ∷ 1 ∷ 9 ∷ [])

abbrev datagram : Bytes
datagram = replicate 16 0 ++ (172 ∷ 16 ∷ 1 ∷ 9 ∷ [])

abbrev for_ue : Packet
for_ue = filled blank datagram

request_served_example :
    (w : Packet) × ((request_packet (create 7 119000000007 5 1 1) blank >>= λ m.
    handle_s11 (new_upf empty 9) (1, 2) (deliver m blank))
      ≡ respond (new_upf empty 9) (create 7 119000000007 5 1 1) (1, 2) w)
    × GtpInRange w.gtp_hdr
unfolding le_bytes
request_served_example =
    request_served (new_upf empty 9) (1, 2) (create 7 119000000007 5 1 1) blank blank
      blank-GtpInRange (omega arith, (omega arith, (omega arith, (omega arith, (omega arith, tt)))))
      (omega arith) (omega arith)

tables : {x : Upf × Reply} {v : Upf} {reply : Reply} → ok x ≡ ok (v, reply) → x.0 ≡ v
tables e = cc

entered_lem :
    (v : Upf) (reply : Reply)
    → answer (new_upf plan 9) (create 7 3 5 1 1) ≡ ok (v, reply)
    → v.s11_id 7 ≢ none
unfolding answer
entered_lem v reply e = subst (λ (w : Upf). w.s11_id 7 ≢ none) (tables e) (λ h. cc)

abbrev pub start : Upf
start = new_upf plan 9

pub start_lem : Linked start
unfolding until_nul
start_lem = new_upf-Linked plan 9 (λ imsi. (refl, omega arith))

sessions-Linked_example :
    (v : Upf) × (serve_all (1, 2) blank blank start (create 7 3 5 1 1 ∷ detach 7 5 1 ∷ []) ≡ ok v)
    × (answer_all start (create 7 3 5 1 1 ∷ detach 7 5 1 ∷ []) ≡ ok v)
    × Linked v
unfolding new_upf le_bytes
sessions-Linked_example =
    sessions-Linked (create 7 3 5 1 1 ∷ detach 7 5 1 ∷ []) start (1, 2) blank blank blank-GtpInRange
      start_lem
      (
        (
          (omega arith, (omega arith, (omega arith, (omega arith, (omega arith, tt))))),
          omega arith,
          omega arith,
        ),
        (omega arith, λ other e. cc, λ c e. cc, omega arith),
        λ v reply e. (
          ((omega arith, (omega arith, tt)), omega arith, omega arith),
          entered_lem v reply e,
          λ w r f. tt,
        ),
      )

-- Subscribers number 3 and 300.
sessions_apart_example :
    (v : Upf) × (serve_all
        (1, 2)
        blank
        blank
        (new_upf (set_ip_addrs empty) 9)
        (two_sessions 3 300 1 2 5 5 1 1)
      ≡ ok v)
    × Linked v
    × (v.sgi_id (address 3) ≡ some (first_imsi + 3))
    × (v.sgi_id (address 300) ≡ some (first_imsi + 300))
    × (address 3 ≢ address 300)
sessions_apart_example =
    sessions_apart 9 3 300 1 2 5 5 1 1 (omega arith) (omega arith) (λ h. absurd (omega arith))
      (omega arith) (omega arith) (λ h. absurd (omega arith)) (omega arith) (omega arith)
      (omega arith) (omega arith) (1, 2) blank blank blank-GtpInRange

first_ip : set_ip_addrs empty first_imsi ≡ some (ip_text 1 3)
first_ip = set_ip_addrs_lem first_imsi

plan-injective_example : first_imsi ≡ first_imsi
plan-injective_example = plan-injective first_imsi first_imsi (ip_text 1 3) first_ip first_ip

set_ip_addrs_example : set_ip_addrs empty 119000000300 ≡ some (ip_text 2 51)
set_ip_addrs_example = set_ip_addrs_lem 119000000300

abbrev pub one_session : Upf
one_session = enter start 7 3 5 1 1

pub one_session-Linked : Linked one_session
unfolding new_upf
one_session-Linked =
    enter-Linked start 7 3 5 1 1 start_lem (omega arith, λ other e. cc, λ c e. cc, omega arith)

exchange_example :
    (v : Upf) × (reply : Reply) × (m : Packet) × (answer one_session (setup 7 30) ≡ ok (v, reply))
    × (exchange (1, 2) blank blank one_session (setup 7 30) ≡ ok (v, ((1, 2), m) ∷ []))
    × (parse_gtp (map kind reply.items) (deliver m blank)
        ≡ ok (reply.msg_type, reply.teid, reply.items))
    × Linked v
unfolding le_bytes
exchange_example =
    exchange_lem one_session (1, 2) (setup 7 30) blank blank blank blank-GtpInRange
      (omega arith, tt) (omega arith) (omega arith) one_session-Linked (λ h. cc)

detach_example :
    (c : UeContext) × (m : Packet) × (one_session.ue_ctx 3 ≡ some c)
    × (exchange (1, 2) blank blank one_session (detach 7 5 1)
        ≡ ok (without one_session 7 3 c.ip_addr, ((1, 2), m) ∷ []))
    × (exchange (1, 2) blank blank (without one_session 7 3 c.ip_addr) (detach 7 5 1)
        ≡ stop zero_imsi)
detach_example =
    handle_detach_lem one_session 7 3 5 1 (1, 2) blank blank blank-GtpInRange one_session-Linked
      refl (omega arith) (omega arith)

downlink_example :
    (v : Upf) × (m : Packet) × (q : Packet) × (serve_all
        (1, 2)
        blank
        blank
        start
        (create 7 3 5 1 1 ∷ modify 7 5 30 (codes "10.0.0.1") 7000 ∷ [])
      ≡ ok v)
    × (handle_downlink_udata (λ b. b) v for_ue ≡ ok (some (codes "10.0.0.1", 7000, m)))
    × ((extract_gtp_hdr (deliver m blank) >>= λ x. ok x.gtp_hdr.teid) ≡ ok 30)
    × (Traffic.handle_downlink_udata (deliver m blank) ≡ ok q)
    × Holds q datagram
unfolding get_dst_ip_addr new_upf replicate le_bytes until_nul copy block
downlink_example =
    downlink_lem start (1, 2) blank blank 7 3 5 1 1 30 7000 (codes "10.0.0.1") datagram (λ b. b)
      for_ue blank blank-GtpInRange start_lem (omega arith, λ other e. cc, λ c e. cc, omega arith)
      (
        (omega arith, (omega arith, (omega arith, (omega arith, (omega arith, tt))))),
        omega arith,
        omega arith,
      )
      ((omega arith, (omega arith, (refl, (omega arith, tt)))), omega arith, omega arith)
      (omega arith) refl (filled-Left blank datagram (omega arith)) blank-GtpInRange (omega arith)

handover_example :
    serve_all (1, 2) blank blank one_session (setup 7 30 ∷ complete 7 ∷ teardown 7 8 ∷ [])
    ≡ ok (handed_over one_session 3 30)
unfolding ue new_upf
handover_example =
    handover_lem one_session 7 30 (1, 2) blank blank blank-GtpInRange one_session-Linked (λ h. cc)
      (omega arith) (omega arith)
