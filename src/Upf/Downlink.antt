-- ===== src/Upf/Downlink.antt =====
-- The downlink of user data against the N4 requests.
use g_core_rest_sba.Base.{
  ℕ, ◌+◌, ◌≤◌, length, subst, ◌≡◌, ◌≢◌, ◌∙◌, refl, ap, sym, true, false, Option, none, some, [],
  ◌∷◌, Bytes, arith, ◌==◌, if◌then◌else◌, bytes_eq_self,
}
use g_core_rest_sba.Base.Map.{get_or, put}
use g_core_rest_sba.Base.Stop.{Result, ok, stop, zero_imsi, bind_ok, ◌>>=◌}
use g_core_rest_sba.Packet.Buffer.{Packet, buf_size, deliver, extract_gtp_hdr}
use g_core_rest_sba.Packet.Items.{flag}
use g_core_rest_sba.Upf.State.{Upf, UeContext, ue, get_imsi_ip, get_downlink_info, downlink_of}
use g_core_rest_sba.Upf.Request.{create, modify, Reply, answer, address_of, enter}
use g_core_rest_sba.Upf.UserPlane.{handle_downlink_udata, get_dst_ip_addr, tunnel}
use g_core_rest_sba.Packet.Header.{GtpInRange, gtp_hdr_len}
use g_core_rest_sba.Security.Filled.{Left, Holds}
use g_core_rest_sba.Ran.Traffic as Traffic
use g_core_rest_sba.Ran.UserPlane.{downlink_tunnelled}
use g_core_rest_sba.Upf.Handlers.{SockAddr}
use g_core_rest_sba.Upf.Sessions.{Linked, Admissible}
use g_core_rest_sba.Upf.Exchange.{serve_all, answer_all, AllAdmissible, Carried, sessions-Linked}

put_get : {V : Type 0} (m : ℕ → Option V) (k : ℕ) (x : V) → put m k x k ≡ some x
put_get m k x = ground arith

-- The tables after a modification for a TEID in use.
abbrev modified : Upf → ℕ → ℕ → Bytes → ℕ → Upf
modified u imsi dl enodeb port = record u {
  ue_ctx =
      put u.ue_ctx imsi
        (record (ue u imsi) { s1_uteid_dl = dl; enodeb_ip_addr = enodeb; enodeb_port = port });
}

modify_answer :
    (u : Upf) (teid imsi eps dl port : ℕ) (enodeb : Bytes)
    → u.s11_id teid ≡ some imsi
    → imsi ≢ 0
    → answer u (modify teid eps dl enodeb port)
      ≡ ok (
        modified u imsi dl enodeb port,
        record { items = flag true ∷ []; msg_type = 2; teid = (ue u imsi).s11_cteid_smf },
      )
unfolding answer
modify_answer u teid imsi eps dl port enodeb h k =
    let known : (imsi == 0) ≡ false = ground arith in
    let done : ℕ → Result (Upf × Reply) = λ i. ok (
      modified u i dl enodeb port,
      record { items = flag true ∷ []; msg_type = 2; teid = (ue u i).s11_cteid_smf },
    ) in
    ap (λ o. let i = get_or o 0 in if i == 0 then stop zero_imsi else done i) h
    ∙ ap (λ b. if b then stop zero_imsi else done imsi) known

-- The way of a packet for an address in use.
downlink_via :
    (u : Upf) (imsi : ℕ) (ip : Bytes) (c : UeContext) (ntop : Bytes → Bytes) (pkt : Packet)
    → get_dst_ip_addr ntop pkt ≡ ok ip
    → u.sgi_id ip ≡ some imsi
    → u.ue_ctx imsi ≡ some c
    → imsi ≢ 0
    → c.enodeb_port ≢ 0
    → handle_downlink_udata ntop u pkt
      ≡ tunnel pkt (some (c.s1_uteid_dl, c.enodeb_ip_addr, c.enodeb_port))
unfolding handle_downlink_udata get_imsi_ip get_downlink_info get_dst_ip_addr
downlink_via u imsi ip c ntop pkt d s e k ready =
    let known : (imsi == 0) ≡ false = ground arith in
    let open_port : (c.enodeb_port == 0) ≡ false = ground arith in
    let way = λ (i : ℕ). tunnel pkt (get_downlink_info u i) in
    bind_ok (λ a. let i = get_or (u.sgi_id a) 0 in if i == 0 then ok none else way i) d refl
    ∙ ap (λ o. let i = get_or o 0 in if i == 0 then ok none else way i) s
    ∙ ap (λ b. if b then ok none else way imsi) known
    ∙ ap (λ o. tunnel pkt (downlink_of o)) e
    ∙ ap
        (λ b.
          tunnel pkt (if b then none else some (c.s1_uteid_dl, c.enodeb_ip_addr, c.enodeb_port)))
        open_port

downlink_answers :
    (u : Upf) (smf imsi eps apn tai dl port : ℕ) (enodeb : Bytes) (ntop : Bytes → Bytes)
    (pkt : Packet)
    → imsi ≢ 0
    → port ≢ 0
    → get_dst_ip_addr ntop pkt ≡ ok (address_of u imsi)
    → (v : Upf) × (answer_all u (create smf imsi eps apn tai ∷ modify smf eps dl enodeb port ∷ [])
        ≡ ok v)
      × (handle_downlink_udata ntop v pkt ≡ tunnel pkt (some (dl, enodeb, port)))
unfolding answer ue
downlink_answers u smf imsi eps apn tai dl port enodeb ntop pkt a b d =
    let entered = enter u smf imsi eps apn tai in
    (
      modified entered imsi dl enodeb port,
      bind_ok _ (modify_answer entered smf imsi eps dl port enodeb (put_get u.s11_id smf imsi) a)
          refl,
      (downlink_via (modified entered imsi dl enodeb port) imsi (address_of u imsi) _ ntop pkt d
          (ap (λ b. if b then some imsi else u.sgi_id (address_of u imsi))
            (bytes_eq_self (address_of u imsi)))
          (put_get entered.ue_ctx imsi _) a b),
    )

in_use_after :
    (u : Upf) (smf imsi eps apn tai : ℕ) (v : Upf) (reply : Reply)
    → answer u (create smf imsi eps apn tai) ≡ ok (v, reply)
    → v.s11_id smf ≢ none
unfolding answer
in_use_after u smf imsi eps apn tai v reply e =
    let same : enter u smf imsi eps apn tai ≡ v = cc in
    subst (λ (w : Upf). w.s11_id smf ≢ none) same (λ h. ground arith)

-- For a subscriber with an address, a session creation that takes a TEID that is free or its own,
-- and then a modification with a port that is not 0, each in range and sent as a packet, are
-- handled to the end; then a packet from the sink for the address, whose bytes fit the buffer with
-- a tunnel header, goes to the address and port that the modification named, the RAN, in any
-- packet, reads from its tunnel header the TEID that the modification named, and gives exactly its
-- bytes to the tun device.
pub downlink_lem :
    (u : Upf) (src : SockAddr) (p rx : Packet) (smf imsi eps apn tai dl port : ℕ)
    (enodeb bs : Bytes) (ntop : Bytes → Bytes) (pkt ran_rx : Packet)
    → GtpInRange p.gtp_hdr
    → Linked u
    → Admissible u (create smf imsi eps apn tai)
    → Carried (create smf imsi eps apn tai)
    → Carried (modify smf eps dl enodeb port)
    → port ≢ 0
    → get_dst_ip_addr ntop pkt ≡ ok (address_of u imsi)
    → Left pkt bs
    → GtpInRange pkt.gtp_hdr
    → gtp_hdr_len + length bs ≤ buf_size
    → (v : Upf) × (m : Packet) × (q : Packet) × (serve_all src p rx u
          (create smf imsi eps apn tai ∷ modify smf eps dl enodeb port ∷ [])
        ≡ ok v)
      × (handle_downlink_udata ntop v pkt ≡ ok (some (enodeb, port, m)))
      × ((extract_gtp_hdr (deliver m ran_rx) >>= λ x. ok x.gtp_hdr.teid) ≡ ok dl)
      × (Traffic.handle_downlink_udata (deliver m ran_rx) ≡ ok q)
      × Holds q bs
downlink_lem u src p rx smf imsi eps apn tai dl port enodeb bs ntop pkt ran_rx g l a c d b to_ue
      left gp room =
    let rs = create smf imsi eps apn tai ∷ modify smf eps dl enodeb port ∷ [] in
    let good : AllAdmissible u rs =
      (c, a, λ v rep e. (d, in_use_after u smf imsi eps apn tai v rep e, λ _ _ _. tt)) in
    let (v, sv, an, _) = sessions-Linked rs u src p rx g l good in
    let (w, aw, via) =
      downlink_answers u smf imsi eps apn tai dl port enodeb ntop pkt (a.0) b to_ue in
    let (m, q, sent, labelled, taken, held) =
      downlink_tunnelled pkt ran_rx bs enodeb dl port left d.0.1.0 gp room in
    (w, m, q, sv ∙ sym an ∙ aw, via ∙ sent, labelled, taken, held)
