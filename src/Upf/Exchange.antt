-- ===== src/Upf/Exchange.antt =====
-- Whole exchanges with the UPF: a peer sends a request as a packet, the UPF handles it and sends its
-- reply, the peer takes the reply apart.
use g_core_rest_sba.Base.{◌+◌, ◌^◌, ◌<◌, ◌≤◌, ◌≡◌, refl, sym, ap, ◌∙◌, length, map, List, [], ◌∷◌}
use g_core_rest_sba.Base.Stop.{Result, ok, ◌>>=◌, bind_ok}
use g_core_rest_sba.Packet.Header.{GtpInRange, gtp_hdr_len}
use g_core_rest_sba.Packet.Buffer.{Packet, deliver, buf_size}
use g_core_rest_sba.Packet.Items.{AllInRange, images, kind}
use g_core_rest_sba.Packet.Message.{parse_gtp, gtp_round_trip, gtp_arrives}
use g_core_rest_sba.Upf.State.{Upf}
use g_core_rest_sba.Upf.Handlers.{SockAddr, Outcome, handle_s11}
use g_core_rest_sba.Upf.Request.{Request, Reply, answer, items_of, teid_of}
use g_core_rest_sba.Upf.Refinement.{request_packet, request_served}
use g_core_rest_sba.Upf.Sessions.{Linked, Admissible, step-Linked}

-- The request as a packet built in `p`, received by the UPF in `rx`.
abbrev pub exchange : SockAddr → Packet → Packet → Upf → Request → Outcome
exchange src p rx u r = request_packet r p >>= λ m. handle_s11 u src (deliver m rx)

-- An admissible N4 request that a peer sends in a packet is handled to the end; the one packet
-- that the UPF sends goes to the peer, who reads from it the reply of the specification, and the
-- tables are then those of the specification, and linked.
pub exchange_lem :
    (u : Upf) (src : SockAddr) (r : Request) (p rx q : Packet)
    → GtpInRange p.gtp_hdr
    → AllInRange (items_of r)
    → teid_of r < 2 ^ 32
    → gtp_hdr_len + length (images (items_of r)) ≤ buf_size
    → Linked u
    → Admissible u r
    → (v : Upf) × (reply : Reply) × (m : Packet) × (answer u r ≡ ok (v, reply))
      × (exchange src p rx u r ≡ ok (v, (src, m) ∷ []))
      × (parse_gtp (map kind reply.items) (deliver m q)
          ≡ ok (reply.msg_type, reply.teid, reply.items))
      × Linked v
exchange_lem u src r p rx q g clean gteid room l a =
    let (v, reply, e, k, (ri, rt, rd, rr)) = step-Linked u r l a in
    let (w, f, gw) = request_served u src r p rx g clean gteid room in
    let (m, c, b, _, _) = gtp_arrives w reply.items reply.msg_type reply.teid gw ri rt rd rr q in
    (
      v,
      reply,
      m,
      e,
      f ∙ bind_ok _ e (bind_ok _ b refl),
      (ap (λ x. x >>= λ n. parse_gtp (map kind reply.items) (deliver n q)) (sym b)
          ∙ gtp_round_trip w reply.items reply.msg_type reply.teid gw ri rt rd rr q),
      k,
    )

-- The packets that carry a sequence of requests, handled in turn.
abbrev pub serve_all : SockAddr → Packet → Packet → Upf → List Request → Result Upf
serve_all src p rx u [] = ok u
serve_all src p rx u (r ∷ rs) = exchange src p rx u r >>= λ x. serve_all src p rx (x.0) rs

-- Requests that are admissible where they arrive, and that a packet can carry.
abbrev pub Carried : Request → Type 0
Carried r =
    AllInRange (items_of r)
    × (teid_of r < 2 ^ 32)
    × (gtp_hdr_len + length (images (items_of r)) ≤ buf_size)

abbrev pub AllAdmissible : Upf → List Request → Type 0
AllAdmissible u [] = Unit
AllAdmissible u (r ∷ rs) =
    Carried r
    × Admissible u r
    × ((v : Upf) (reply : Reply) → answer u r ≡ ok (v, reply) → AllAdmissible v rs)

-- The specification of a sequence.
abbrev pub answer_all : Upf → List Request → Result Upf
answer_all u [] = ok u
answer_all u (r ∷ rs) = answer u r >>= λ x. answer_all (x.0) rs

-- From linked tables the handlers serve any sequence of admissible N4 requests to the end, as the
-- specification says, and the tables are linked afterwards: each context is found under its
-- control TEID, and each control TEID names a context that has it.
pub sessions-Linked :
    (rs : List Request) (u : Upf) (src : SockAddr) (p rx : Packet)
    → GtpInRange p.gtp_hdr
    → Linked u
    → AllAdmissible u rs
    → (v : Upf) × (serve_all src p rx u rs ≡ ok v) × (answer_all u rs ≡ ok v) × Linked v
sessions-Linked [] u src p rx g l a = (u, refl, refl, l)
sessions-Linked (r ∷ rs) u src p rx g l a =
    let (c, b, more) = a in
    let (v, reply, m, e, f, _, k) = exchange_lem u src r p rx rx g c.0 c.1 c.2 l b in
    let (w, sv, an, lw) = sessions-Linked rs v src p rx g k (more v reply e) in
    (w, bind_ok _ f sv, bind_ok _ e an, lw)
