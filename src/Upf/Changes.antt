-- ===== src/Upf/Changes.antt =====
-- What sequences of N4 requests change in the UPF's tables, and what they leave alone.
use g_core_rest_sba.Base.{
  ℕ, ◌+◌, ◌<◌, ◌^◌, map, subst, ◌≡◌, ◌≢◌, ◌∙◌, ap, sym, fun_ext, true, false, Option, none, some,
  [], ◌∷◌, Bytes, arith, ◌==◌, if◌then◌else◌,
}
use g_core_rest_sba.Base.Words.{u32}
use g_core_rest_sba.Base.Map.{get_or, put, erase, erase_str}
use g_core_rest_sba.Base.Stop.{Result, ok, stop, zero_imsi, ◌>>=◌}
use g_core_rest_sba.Packet.Buffer.{Packet, deliver}
use g_core_rest_sba.Packet.Items.{flag, flags, kind}
use g_core_rest_sba.Packet.Message.{parse_gtp}
use g_core_rest_sba.Upf.State.{Upf, UeContext, ue, ho_ue, new_ue}
use g_core_rest_sba.Upf.Request.{
  detach, setup, complete, teardown, Reply, answer, imsi_of, detached, leave,
}
use g_core_rest_sba.Packet.Header.{GtpInRange}
use g_core_rest_sba.Packet.Codec.{le_bytes}
use g_core_rest_sba.Upf.Handlers.{SockAddr}
use g_core_rest_sba.Upf.Refinement.{request_served, send_reply}
use g_core_rest_sba.Upf.Sessions.{u32_bound, Linked}
use g_core_rest_sba.Upf.Exchange.{
  exchange, exchange_lem, serve_all, answer_all, AllAdmissible, Carried, sessions-Linked,
}

-- What a whole handover makes of the tables: the context of the subscriber has the new downlink
-- TEID, its handover entry is erased, and so is the uplink entry of the TEID after its own.
abbrev pub handed_over : Upf → ℕ → ℕ → Upf
handed_over u imsi dl = record u {
  s1_id = erase u.s1_id (u32 ((ue u imsi).s11_cteid_smf + 1));
  ue_ctx = put u.ue_ctx imsi (record (ue u imsi) { s1_uteid_dl = dl });
  ho_ue_ctx = erase u.ho_ue_ctx (u32 imsi);
}

put_get : {V : Type 0} (m : ℕ → Option V) (k : ℕ) (x : V) → put m k x k ≡ some x
put_get m k x = ground arith

put_twice : {V : Type 0} (m : ℕ → Option V) (k : ℕ) (x y : V) → put (put m k x) k y ≡ put m k y
put_twice m k x y = fun_ext (λ j. ground arith)

erase-put : {V : Type 0} (m : ℕ → Option V) (k : ℕ) (x : V) → erase (put m k x) k ≡ erase m k
erase-put m k x = fun_ext (λ j. ground arith)

-- Equal tables.
same_tables :
    (u : Upf) {s1 s1' : ℕ → Option ℕ} {ues ues' ho ho' : ℕ → Option UeContext}
    → s1 ≡ s1'
    → ues ≡ ues'
    → ho ≡ ho'
    → (record u { s1_id = s1; ue_ctx = ues; ho_ue_ctx = ho })
      ≡ (record u { s1_id = s1'; ue_ctx = ues'; ho_ue_ctx = ho' })
same_tables u a b c = rw (a, b, c)

-- An entry that is written three times, the second time with another field of the first.
rewritten :
    {V : Type 0} (m : ℕ → Option V) (k : ℕ) (x fresh : V) (f : V → V)
    → let m1 = put m k x in
      let m2 = put m1 k (f (get_or (m1 k) fresh)) in put m2 k (get_or (m2 k) fresh) ≡ put m k (f x)
rewritten m k x fresh f =
    ap (λ o. let m2 = put (put m k x) k (f (get_or o fresh)) in put m2 k (get_or (m2 k) fresh))
      (put_get m k x)
    ∙ ap (λ o. put (put (put m k x) k (f x)) k (get_or o fresh)) (put_get (put m k x) k (f x))
    ∙ put_twice (put m k x) k (f x) (f x)
    ∙ put_twice m k x (f x)

handover_answers :
    (u : Upf) (teid dl : ℕ)
    → let ul = u32 ((ue u (imsi_of u teid)).s11_cteid_smf + 1) in
      answer_all u (setup teid dl ∷ complete teid ∷ teardown teid ul ∷ [])
      ≡ ok (handed_over u (imsi_of u teid) dl)
unfolding answer ue ho_ue new_ue
handover_answers u teid dl =
    let imsi = imsi_of u teid in
    let c = ue u imsi in
    let ho : UeContext = record (ho_ue u imsi) { s1_uteid_dl = dl } in
    let entry = put u.ho_ue_ctx (u32 imsi) ho in
    ap ok (
      same_tables u (erase-put _ _ _)
        (rewritten u.ue_ctx imsi c (new_ue u.junk) (λ x. record x {
          s1_uteid_dl = (get_or (entry (u32 imsi)) (new_ue u.junk)).s1_uteid_dl;
        })
          ∙ ap
              (λ o.
                put u.ue_ctx imsi
                  (record c { s1_uteid_dl = (get_or o (new_ue u.junk)).s1_uteid_dl }))
              (put_get u.ho_ue_ctx (u32 imsi) ho))
        (erase-put u.ho_ue_ctx (u32 imsi) ho))

-- What a request that returned made of the tables.
pub tables : {x : Upf × Reply} {v : Upf} {reply : Reply} → ok x ≡ ok (v, reply) → x.0 ≡ v
tables e = cc

-- The answer to a detach of a subscriber that has a context.
detach_answer :
    (u : Upf) (teid imsi eps tai : ℕ) (c : UeContext)
    → u.s11_id teid ≡ some imsi
    → u.ue_ctx imsi ≡ some c
    → imsi ≢ 0
    → answer u (detach teid eps tai)
      ≡ ok (leave u imsi c, record { items = flag true ∷ []; msg_type = 3; teid = c.s11_cteid_smf })
unfolding answer
detach_answer u teid imsi eps tai c h e k =
    let known : (imsi == 0) ≡ false = ground arith in
    ap (λ o. let i = get_or o 0 in if i == 0 then stop zero_imsi else detached u i (u.ue_ctx i)) h
    ∙ ap (λ b. if b then stop zero_imsi else detached u imsi (u.ue_ctx imsi)) known
    ∙ ap (detached u imsi) e

unknown_lem :
    (u : Upf) (teid eps tai : ℕ)
    → u.s11_id teid ≡ none
    → answer u (detach teid eps tai) ≡ stop zero_imsi
unfolding answer
unknown_lem u teid eps tai h =
    ap (λ o. let i = get_or o 0 in if i == 0 then stop zero_imsi else detached u i (u.ue_ctx i)) h

-- The tables without a subscriber that had a TEID and an address.
abbrev pub without : Upf → ℕ → ℕ → Bytes → Upf
without u teid imsi ip = record u {
  s11_id = erase u.s11_id teid;
  s1_id = erase u.s1_id teid;
  sgi_id = erase_str u.sgi_id ip;
  ue_ctx = erase u.ue_ctx imsi;
}

leave-without :
    (u : Upf) (teid imsi : ℕ) (c : UeContext)
    → c.s11_cteid_upf ≡ teid
    → c.s1_uteid_ul ≡ teid
    → leave u imsi c ≡ without u teid imsi c.ip_addr
leave-without u teid imsi c g h =
    ap (λ t. record (leave u imsi c) { s11_id = erase u.s11_id t }) g
    ∙ ap (λ t. record (leave u imsi c) { s11_id = erase u.s11_id teid; s1_id = erase u.s1_id t }) h

detach-Carried :
    (teid eps tai : ℕ) → teid < 2 ^ 32 → eps < 2 ^ 8 → tai < 2 ^ 64 → Carried (detach teid eps tai)
unfolding le_bytes
detach-Carried teid eps tai a b c = ((b, (c, tt)), a, omega arith)

-- A TEID in use is a 32-bit number.
pub teid_small : (u : Upf) (teid imsi : ℕ) → Linked u → u.s11_id teid ≡ some imsi → teid < 2 ^ 32
teid_small u teid imsi l h =
    let (c, e, k) = l.to_ue teid imsi h in
    let (_, _, _, _, small) = l.to_teid imsi c e in subst (λ t. t < 2 ^ 32) k small

abbrev detach_reply : UeContext → Reply
detach_reply c = record { items = flag true ∷ []; msg_type = 3; teid = c.s11_cteid_smf }

pub replies :
    {v w : Upf} {r t : Reply} → ◌≡◌ {A = Result (Upf × Reply)} (ok (v, r)) (ok (w, t)) → r ≡ t
replies h = cc

-- The exchange of a detach of a TEID in use, up to what the peer reads.
pub detach_exchange :
    (u : Upf) (teid imsi eps tai : ℕ) (src : SockAddr) (p rx q : Packet)
    → GtpInRange p.gtp_hdr
    → Linked u
    → u.s11_id teid ≡ some imsi
    → eps < 2 ^ 8
    → tai < 2 ^ 64
    → (c : UeContext) × (m : Packet) × (u.ue_ctx imsi ≡ some c)
      × (exchange src p rx u (detach teid eps tai)
          ≡ ok (without u teid imsi c.ip_addr, (src, m) ∷ []))
      × (parse_gtp (flags ∷ []) (deliver m q) ≡ ok (3, c.s11_cteid_smf, flag true ∷ []))
detach_exchange u teid imsi eps tai src p rx q g l h he ht =
    let (c, e, k) = l.to_ue teid imsi h in
    let (_, same_smf, same_ul, known, small) = l.to_teid imsi c e in
    let (clean, low, room) = detach-Carried teid eps tai (subst (λ t. t < 2 ^ 32) k small) he ht in
    let (v, reply, m, a, f, parsed, _) =
      exchange_lem u src (detach teid eps tai) p rx q g clean low room l
        (λ none_there. ground arith) in
    let says : ok (leave u imsi c, detach_reply c) ≡ ok (v, reply) =
      sym (detach_answer u teid imsi eps tai c h e known) ∙ a in
    (
      c,
      m,
      e,
      (f
          ∙ ap (λ x. ok (x, (src, m) ∷ []))
              (sym (tables says) ∙ leave-without u teid imsi c k (same_ul ∙ k))),
      subst (λ r. parse_gtp (map kind r.items) (deliver m q) ≡ ok (r.msg_type, r.teid, r.items))
          (sym (replies says)) parsed,
    )

-- A detach of a TEID in use, sent as a packet, is handled and replied to; the TEID, the address
-- and the context of its subscriber are erased from the four tables and nothing else is; a second
-- detach for the TEID stops the process.
pub handle_detach_lem :
    (u : Upf) (teid imsi eps tai : ℕ) (src : SockAddr) (p rx : Packet)
    → GtpInRange p.gtp_hdr
    → Linked u
    → u.s11_id teid ≡ some imsi
    → eps < 2 ^ 8
    → tai < 2 ^ 64
    → (c : UeContext) × (m : Packet) × (u.ue_ctx imsi ≡ some c)
      × (exchange src p rx u (detach teid eps tai)
          ≡ ok (without u teid imsi c.ip_addr, (src, m) ∷ []))
      × (exchange src p rx (without u teid imsi c.ip_addr) (detach teid eps tai) ≡ stop zero_imsi)
handle_detach_lem u teid imsi eps tai src p rx g l h he ht =
    let (c, m, e, f, _) = detach_exchange u teid imsi eps tai src p rx rx g l h he ht in
    let low : teid < 2 ^ 32 = teid_small u teid imsi l h in
    let (clean, _, room) = detach-Carried teid eps tai low he ht in
    let (w, again, _) =
      request_served (without u teid imsi c.ip_addr) src (detach teid eps tai) p rx g clean low
        room in
    (
      c,
      m,
      e,
      f,
      (again
          ∙ ap (λ x. x >>= send_reply src w)
              (unknown_lem (without u teid imsi c.ip_addr) teid eps tai (ground arith))),
    )

-- The tables after a setup, by the specification; the TEID stays in use.
still_in_use :
    (u : Upf) (teid dl : ℕ) (v : Upf) (reply : Reply)
    → u.s11_id teid ≢ none
    → answer u (setup teid dl) ≡ ok (v, reply)
    → v.s11_id teid ≢ none
unfolding answer
still_in_use u teid dl v reply h e = subst (λ (w : Upf). w.s11_id teid ≢ none) (tables e) h

still_in_use_after :
    (u : Upf) (teid : ℕ) (v : Upf) (reply : Reply)
    → u.s11_id teid ≢ none
    → answer u (complete teid) ≡ ok (v, reply)
    → v.s11_id teid ≢ none
unfolding answer
still_in_use_after u teid v reply h e = subst (λ (w : Upf). w.s11_id teid ≢ none) (tables e) h

-- For a TEID in use a tunnel setup, a handover completion and the teardown of the tunnel that the
-- setup named, each sent as a packet, are handled to the end. The context of the subscriber then
-- has the new downlink TEID, its handover entry is gone, the uplink entry of the TEID after the
-- one of its context is gone, also where another subscriber had it before, and all else in the
-- tables is as it was.
pub handover_lem :
    (u : Upf) (teid dl : ℕ) (src : SockAddr) (p rx : Packet)
    → GtpInRange p.gtp_hdr
    → Linked u
    → u.s11_id teid ≢ none
    → teid < 2 ^ 32
    → dl < 2 ^ 32
    → let ul = u32 ((ue u (imsi_of u teid)).s11_cteid_smf + 1) in
      serve_all src p rx u (setup teid dl ∷ complete teid ∷ teardown teid ul ∷ [])
      ≡ ok (handed_over u (imsi_of u teid) dl)
unfolding le_bytes
handover_lem u teid dl src p rx g l h ht hd =
    let ul = u32 ((ue u (imsi_of u teid)).s11_cteid_smf + 1) in
    let rs = setup teid dl ∷ complete teid ∷ teardown teid ul ∷ [] in
    let good : AllAdmissible u rs = (
      ((hd, tt), ht, omega arith),
      h,
      λ v rep e. (
        (tt, ht, omega arith),
        still_in_use u teid dl v rep h e,
        λ w rep' e'. (
          ((u32_bound _, tt), ht, omega arith),
          still_in_use_after v teid w rep' (still_in_use u teid dl v rep h e) e',
          λ _ _ _. tt,
        ),
      ),
    ) in
    let (v, sv, an, _) = sessions-Linked rs u src p rx g l good in
    sv ∙ sym an ∙ handover_answers u teid dl
