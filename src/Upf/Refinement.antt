-- ===== src/Upf/Refinement.antt =====
-- The N4 handlers, which read and write packet bytes, against the requests as values.
use g_core_rest_sba.Base.{
  ℕ, ◌+◌, ◌^◌, ◌<◌, ◌≡◌, refl, sym, ap, subst, length, ◌≤◌, ◌∙◌, Bool, true, false, Option, none,
  some, [], ◌∷◌, Bytes, ◌==◌, if◌then◌else◌, arith,
}
use g_core_rest_sba.Base.Stop.{
  Stop, zero_imsi, no_uectx, Result, ok, stop, ◌>>=◌, ◌>>◌, stop_if, bind_ok,
}
use g_core_rest_sba.Base.Map.{has}
use g_core_rest_sba.Packet.Codec.{byte_range}
use g_core_rest_sba.Packet.Header.{Gtp, GtpInRange, gtp_hdr_len}
use g_core_rest_sba.Packet.Buffer.{
  Packet, copy, deliver, buf_size, extract_u8, extract_u32, extract_u64, extract_int,
}
use g_core_rest_sba.Packet.Contents.{Reads, copy-Reads}
use g_core_rest_sba.Packet.Items.{AllInRange, images, num_Reads, text_Reads, text_fits, flag}
use g_core_rest_sba.Packet.Message.{build_gtp, Arrived, gtp_arrives}
use g_core_rest_sba.Upf.State.{Upf, UeContext, ue, rem_itfid, rem_itfid_ip, rem_uectx}
use g_core_rest_sba.Upf.Handlers.{
  SockAddr, Outcome, dispatch_s11, handle_s11, handle_create_session, handle_modify_bearer,
  handle_detach, handle_indirect_tunnel_setup, handle_handover_completion,
  handle_indirect_tunnel_teardown,
}
use g_core_rest_sba.Upf.Request.{
  Request, create, modify, detach, setup, complete, teardown, Reply, answer, items_of, teid_of,
  imsi_of, detached, msg_type_of,
}

-- The answer to a request, sent to `src` in the packet `q`.
abbrev pub send_reply : SockAddr → Packet → Upf × Reply → Outcome
send_reply src q (u, r) = do m ← build_gtp r.items 2 r.msg_type r.teid q; ok (u, (src, m) ∷ [])

abbrev pub respond : Upf → Request → SockAddr → Packet → Outcome
respond u r src q = answer u r >>= send_reply src q

-- What a handler makes of a packet that carries the request `r`, whose TEID is in the header.
abbrev Serves : (Upf → SockAddr → Packet → Outcome) → (ℕ → Request) → Type 0
Serves handler r =
    (u : Upf) (src : SockAddr) (pkt : Packet)
    → let req = r pkt.gtp_hdr.teid in
      AllInRange (items_of req)
      → Reads pkt (images (items_of req))
      → (q : Packet) × (handler u src pkt ≡ respond u req src q) × (q.gtp_hdr ≡ pkt.gtp_hdr)

create_Serves :
    (smf imsi eps apn tai : ℕ) → Serves handle_create_session (λ _. create smf imsi eps apn tai)
unfolding handle_create_session answer extract_u8 extract_u32 extract_u64 byte_range
create_Serves smf imsi eps apn tai u src pkt g r =
    let (p1, e1, r1, k1) = num_Reads pkt 4 smf _ g.0 r in
    let (p2, e2, r2, k2) = num_Reads p1 8 imsi _ g.1.0 r1 in
    let (p3, e3, r3, k3) = num_Reads p2 1 eps _ g.1.1.0 r2 in
    let (p4, e4, r4, k4) = num_Reads p3 8 apn _ g.1.1.1.0 r3 in
    let (p5, e5, r5, k5) = num_Reads p4 8 tai _ g.1.1.1.1.0 r4 in
    (
      p5,
      bind_ok _ e1 (bind_ok _ e2 (bind_ok _ e3 (bind_ok _ e4 (bind_ok _ e5 refl)))),
      k5 ∙ k4 ∙ k3 ∙ k2 ∙ k1,
    )

-- A test that stops, against the branch of the answer.
guard_lem :
    {A B : Type 0} (b : Bool) (e : Stop) (m : Result B) (n : Result A) (f : A → Result B)
    → m ≡ (n >>= f)
    → (stop_if b e >> m) ≡ ((if b then stop e else n) >>= f)
guard_lem true e m n f h = refl
guard_lem false e m n f h = h

modify_Serves :
    (eps dl : ℕ) (enodeb : Bytes) (port : ℕ)
    → Serves handle_modify_bearer (λ teid. modify teid eps dl enodeb port)
unfolding handle_modify_bearer answer extract_u8 extract_u32 extract_int byte_range
modify_Serves eps dl enodeb port u src pkt g r =
    let (p1, e1, r1, k1) = num_Reads pkt 1 eps _ g.0 r in
    let (p2, e2, r2, k2) = num_Reads p1 4 dl _ g.1.0 r1 in
    let (p3, e3, r3, k3) = text_Reads p2 enodeb _ g.1.1.0 (text_fits p2 enodeb _ r2) r2 in
    let (p4, e4, r4, k4) = num_Reads p3 4 port _ g.1.1.1.0 r3 in
    (
      p4,
      (guard_lem (imsi_of u pkt.gtp_hdr.teid == 0) zero_imsi _ _ (send_reply src p4)
          (bind_ok _ e1 (bind_ok _ e2 (bind_ok _ e3 (bind_ok _ e4 refl))))),
      k4 ∙ k3 ∙ k2 ∙ k1,
    )

detach_tail :
    (u : Upf) (src : SockAddr) (q : Packet) (imsi : ℕ) (o : Option UeContext)
    → u.ue_ctx imsi ≡ o
    → (do
      stop_if (if has (u.ue_ctx imsi) then false else true) no_uectx
      let c = ue u imsi
      m ← build_gtp (flag true ∷ []) 2 3 c.s11_cteid_smf q
      u1 ← rem_itfid u 11 c.s11_cteid_upf
      u2 ← rem_itfid u1 1 c.s1_uteid_ul
      u3 ← rem_itfid_ip u2 0 0 c.ip_addr
      ok (rem_uectx u3 imsi, (src, m) ∷ []))
      ≡ (detached u imsi (u.ue_ctx imsi) >>= send_reply src q)
unfolding ue rem_itfid rem_itfid_ip rem_uectx
detach_tail u src q imsi none e = rw e
detach_tail u src q imsi (some c) e = rw e

detach_Serves : (eps tai : ℕ) → Serves handle_detach (λ teid. detach teid eps tai)
unfolding handle_detach answer extract_u8 extract_u64 byte_range
detach_Serves eps tai u src pkt g r =
    let (p1, e1, r1, k1) = num_Reads pkt 1 eps _ g.0 r in
    let (p2, e2, r2, k2) = num_Reads p1 8 tai _ g.1.0 r1 in
    (
      p2,
      (guard_lem (imsi_of u pkt.gtp_hdr.teid == 0) zero_imsi _ _ (send_reply src p2) (
          bind_ok _ e1 (
            bind_ok _ e2 (
              detach_tail u src p2 (imsi_of u pkt.gtp_hdr.teid)
                (u.ue_ctx (imsi_of u pkt.gtp_hdr.teid)) refl)))),
      k2 ∙ k1,
    )

setup_Serves : (dl : ℕ) → Serves handle_indirect_tunnel_setup (λ teid. setup teid dl)
unfolding handle_indirect_tunnel_setup answer extract_u32 byte_range
setup_Serves dl u src pkt g r =
    let (p1, e1, r1, k1) = num_Reads pkt 4 dl _ g.0 r in (p1, bind_ok _ e1 refl, k1)

complete_Serves : Serves handle_handover_completion (λ teid. complete teid)
unfolding handle_handover_completion answer
complete_Serves u src pkt g r = (pkt, refl, refl)

teardown_Serves : (ul : ℕ) → Serves handle_indirect_tunnel_teardown (λ teid. teardown teid ul)
unfolding handle_indirect_tunnel_teardown answer extract_u32 byte_range
teardown_Serves ul u src pkt g r =
    let (p1, e1, r1, k1) = num_Reads pkt 4 ul _ g.0 r in (p1, bind_ok _ e1 refl, k1)

-- The copy that a handler gets by value serves as well as the packet.
served :
    (handler : Upf → SockAddr → Packet → Outcome) (r : ℕ → Request) (t teid : ℕ) (u : Upf)
    (src : SockAddr) (q : Packet)
    → Serves handler r
    → AllInRange (items_of (r teid))
    → Arrived q t teid (items_of (r teid))
    → (w : Packet) × ((copy q >>= handler u src) ≡ respond u (r teid) src w) × GtpInRange w.gtp_hdr
served handler r t teid u src q serves clean a =
    let (c, e, reads, k) = copy-Reads q (images (items_of (r teid))) a.reads in
    let et : teid ≡ c.gtp_hdr.teid = sym (ap (λ (h : Gtp). h.teid) k ∙ a.is_teid) in
    let (w, f, kw) =
      serves u src c (subst (λ t. AllInRange (items_of (r t))) et clean)
        (subst (λ t. Reads c (images (items_of (r t)))) et reads) in
    (
      w,
      bind_ok _ e (f ∙ ap (λ t. respond u (r t) src w) (sym et)),
      subst GtpInRange (sym (kw ∙ k)) a.in_range,
    )

-- The switch hands each request to its handler.
dispatched :
    (r : Request) (u : Upf) (src : SockAddr) (q : Packet)
    → AllInRange (items_of r)
    → Arrived q (msg_type_of r) (teid_of r) (items_of r)
    → (w : Packet) × (dispatch_s11 (msg_type_of r) u src q ≡ respond u r src w)
      × GtpInRange w.gtp_hdr
unfolding dispatch_s11
dispatched (create smf imsi eps apn tai) u src q clean a =
    served handle_create_session (λ _. create smf imsi eps apn tai) 1 0 u src q
      (create_Serves smf imsi eps apn tai) clean a
dispatched (modify teid eps dl enodeb port) u src q clean a =
    served handle_modify_bearer (λ t. modify t eps dl enodeb port) 2 teid u src q
      (modify_Serves eps dl enodeb port) clean a
dispatched (detach teid eps tai) u src q clean a =
    served handle_detach (λ t. detach t eps tai) 3 teid u src q (detach_Serves eps tai) clean a
dispatched (setup teid dl) u src q clean a =
    served handle_indirect_tunnel_setup (λ t. setup t dl) 4 teid u src q (setup_Serves dl) clean a
dispatched (complete teid) u src q clean a =
    served handle_handover_completion (λ t. complete t) 5 teid u src q complete_Serves clean a
dispatched (teardown teid ul) u src q clean a =
    served handle_indirect_tunnel_teardown (λ t. teardown t ul) 6 teid u src q (teardown_Serves ul)
      clean a

-- The message that carries a request.
abbrev pub request_packet : Request → Packet → Result Packet
request_packet r p = build_gtp (items_of r) 2 (msg_type_of r) (teid_of r) p

msg_type_small : (r : Request) → msg_type_of r < 2 ^ 8
msg_type_small (create smf imsi eps apn tai) = omega arith
msg_type_small _ = omega arith

-- Whatever the tables, a request that a peer sends as a GTP message is answered as specified, on
-- every branch: the same tables and reply, or the same stop.
pub request_served :
    (u : Upf) (src : SockAddr) (r : Request) (p rx : Packet)
    → GtpInRange p.gtp_hdr
    → AllInRange (items_of r)
    → teid_of r < 2 ^ 32
    → gtp_hdr_len + length (images (items_of r)) ≤ buf_size
    → (w : Packet) × ((request_packet r p >>= λ m. handle_s11 u src (deliver m rx))
        ≡ respond u r src w)
      × GtpInRange w.gtp_hdr
unfolding handle_s11
request_served u src r p rx g clean gteid room =
    let (c, q, e, f, a) =
      gtp_arrives p (items_of r) (msg_type_of r) (teid_of r) g clean (msg_type_small r) gteid room
        rx in
    let (w, d, gw) = dispatched r u src q clean a in
    (w, bind_ok _ e (bind_ok _ f (ap (λ t. dispatch_s11 t u src q) a.is_type ∙ d)), gw)
