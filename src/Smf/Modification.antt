-- ===== src/Smf/Modification.antt =====
-- The modification of a bearer from the SMF's request on, with the UDM and the UPF behind it.
use g_core_rest_sba.Base.{
  ℕ, ◌^◌, ◌<◌, ◌≤◌, ◌≡◌, ◌≢◌, refl, sym, ap, ◌∙◌, subst, true, false, some, [], ◌∷◌, Bytes, arith,
  ◌==◌, map, length, length-append,
}
use g_core_rest_sba.Base.Words.{u8}
use g_core_rest_sba.Base.Map.{put}
use g_core_rest_sba.Base.Stop.{ok, zero_guti, bind_ok, bind_inv, pass}
use g_core_rest_sba.Json.{Json}
use g_core_rest_sba.Packet.Codec.{le_bytes}
use g_core_rest_sba.Packet.Header.{GtpInRange}
use g_core_rest_sba.Packet.Buffer.{Packet, deliver, until_nul}
use g_core_rest_sba.Packet.Items.{flag, flags, kind, octet, word, int, text}
use g_core_rest_sba.Packet.Message.{build_gtp, parse_gtp}
use g_core_rest_sba.Udm.State.{Udm, ctx, set_ctx}
use g_core_rest_sba.Udm.Sessions.{ue_ctx_request_smf_handle_modify_bearer}
use g_core_rest_sba.Udm.Server.{callback, handle}
use g_core_rest_sba.Udm.Client.{asked}
use g_core_rest_sba.Upf.State.{Upf, UeContext, ue}
use g_core_rest_sba.Upf.Handlers.{SockAddr, handle_s11}
use g_core_rest_sba.Upf.Request.{Reply, modify, answer}
use g_core_rest_sba.Upf.Refinement.{request_packet}
use g_core_rest_sba.Upf.Sessions.{Linked}
use g_core_rest_sba.Upf.Exchange.{exchange, exchange_lem}
use g_core_rest_sba.Upf.Changes.{tables, replies, teid_small}
use g_core_rest_sba.Attach.Network.{as_uint_lem}
use g_core_rest_sba.Smf.Handlers.{Smf, UpdateSmContextRequest, handle_modify_bearer}
use g_core_rest_sba.Smf.Release.{n4, read_flag}

-- The tables with a downlink for a subscriber.
abbrev pub redirected : Upf → ℕ → UeContext → ℕ → Bytes → ℕ → Upf
redirected u imsi c dl enodeb port = record u {
  ue_ctx =
      put u.ue_ctx imsi
        (record c { s1_uteid_dl = dl; enodeb_ip_addr = enodeb; enodeb_port = port });
}

abbrev accepted : UeContext → Reply
accepted c = record { items = flag true ∷ []; msg_type = 2; teid = c.s11_cteid_smf }

modify_answer :
    (u : Upf) (teid imsi eps dl port : ℕ) (enodeb : Bytes) (c : UeContext)
    → u.s11_id teid ≡ some imsi
    → u.ue_ctx imsi ≡ some c
    → imsi ≢ 0
    → answer u (modify teid eps dl enodeb port)
      ≡ ok (redirected u imsi c dl enodeb port, accepted c)
unfolding answer ue
modify_answer u teid imsi eps dl port enodeb c h e k =
    let known : (imsi == 0) ≡ false = ground arith in rw (h, e, known) refl

-- The request as a packet, and the answer of the UPF, up to what the SMF reads.
modify_exchange :
    (u : Upf) (teid imsi eps dl port : ℕ) (enodeb : Bytes) (src : SockAddr) (p rx q : Packet)
    → GtpInRange p.gtp_hdr
    → Linked u
    → u.s11_id teid ≡ some imsi
    → eps < 2 ^ 8
    → dl < 2 ^ 32
    → port < 2 ^ 32
    → until_nul enodeb ≡ enodeb
    → length enodeb ≤ 900
    → (c : UeContext) × (m : Packet) × (u.ue_ctx imsi ≡ some c)
      × (exchange src p rx u (modify teid eps dl enodeb port)
          ≡ ok (redirected u imsi c dl enodeb port, (src, m) ∷ []))
      × (parse_gtp (flags ∷ []) (deliver m q) ≡ ok (2, c.s11_cteid_smf, flag true ∷ []))
unfolding le_bytes
modify_exchange u teid imsi eps dl port enodeb src p rx q g l h he hd hp clean short =
    let (c, e, k) = l.to_ue teid imsi h in
    let (_, _, _, known, small) = l.to_teid imsi c e in
    let (v, reply, m, a, f, parsed, _) =
      exchange_lem u src (modify teid eps dl enodeb port) p rx q g (he, (hd, (clean, (hp, tt))))
        (teid_small u teid imsi l h) (omega (arith, length-append enodeb (le_bytes 4 port))) l
        (λ none_there. ground arith) in
    let says : ok (redirected u imsi c dl enodeb port, accepted c) ≡ ok (v, reply) =
      sym (modify_answer u teid imsi eps dl port enodeb c h e known) ∙ a in
    (
      c,
      m,
      e,
      f ∙ ap (λ x. ok (x, (src, m) ∷ [])) (sym (tables says)),
      subst (λ r. parse_gtp (map kind r.items) (deliver m q) ≡ ok (r.msg_type, r.teid, r.items))
          (sym (replies says)) parsed,
    )

module _ (J : Json) (smf : Smf) (d : Udm) (u : Upf) (src : SockAddr) (pkt rx : Packet)
    (r : UpdateSmContextRequest) (imsi : ℕ) (g : GtpInRange pkt.gtp_hdr) (l : Linked u)
    (hg : r.guti ≢ 0) (he : (ctx d r.guti).eps_bearer_id < 2 ^ 8)
    (hd : (ctx d r.guti).s1_uteid_dl < 2 ^ 32) (hp : r.g_trafmon_port < 2 ^ 32)
    (clean : until_nul r.g_trafmon_ip_addr ≡ r.g_trafmon_ip_addr)
    (short : length r.g_trafmon_ip_addr ≤ 900)
    (h : u.s11_id (ctx d r.guti).s11_cteid_sgw ≡ some imsi) where
  abbrev known_bearer : J.Value
  known_bearer =
      let c = ctx d r.guti in
      let r1 = J.set_num J.null "eps_bearer_id" c.eps_bearer_id in
      let r2 = J.set_num r1 "s1_uteid_dl" c.s1_uteid_dl in
      J.set_num r2 "s11_cteid_sgw" c.s11_cteid_sgw

  tells_bearer :
      callback J "/Nudm_UECM/UECtx/RequestSMFModifyBearer" d (J.set_num J.null "guti" r.guti)
      ≡ ok (set_ctx d r.guti (ctx d r.guti), some (200, J.write known_bearer))
  unfolding callback ue_ctx_request_smf_handle_modify_bearer
  tells_bearer = rw (J.num_set_num J.null "guti" r.guti "guti") refl

  -- A modification request for a GUTI that is not 0, whose traffic monitor has an address of at
  -- most 900 bytes, none of them zero, and a port in range, and whose bearer, in range, has at the
  -- UDM a control TEID that is in use at a UPF with linked tables, runs through the UDM and the
  -- UPF to the end: the response is true, the SMF and the context of the subscriber at the UPF
  -- have the address and the port, the context also the downlink TEID that the UDM has, whatever
  -- bearer and downlink TEID the request names.
  pub modifies :
      (c : UeContext) × (u.ue_ctx imsi ≡ some c)
      × (handle_modify_bearer J (handle J) (n4 src rx) smf pkt d u r
          ≡ ok (
            record smf {
              g_trafmon_ip_addr = r.g_trafmon_ip_addr;
              g_trafmon_port = r.g_trafmon_port;
            },
            set_ctx d r.guti (ctx d r.guti),
            redirected u imsi c (ctx d r.guti).s1_uteid_dl r.g_trafmon_ip_addr r.g_trafmon_port,
            true,
          ))
  unfolding handle_modify_bearer
  modifies =
      let b = ctx d r.guti in
      let z = known_bearer in
      let ze : J.num z "eps_bearer_id" ≡ b.eps_bearer_id = simp J.num_set_num in
      let zd : J.num z "s1_uteid_dl" ≡ b.s1_uteid_dl = simp J.num_set_num in
      let zs : J.num z "s11_cteid_sgw" ≡ b.s11_cteid_sgw = simp J.num_set_num in
      let ip = r.g_trafmon_ip_addr in
      let port = r.g_trafmon_port in
      let teid = b.s11_cteid_sgw in
      let byte : u8 b.eps_bearer_id ≡ b.eps_bearer_id = omega arith in
      let (_, _, _, f0, _) =
        modify_exchange u teid imsi b.eps_bearer_id b.s1_uteid_dl port ip src pkt rx rx g l h he hd
          hp clean short in
      let (sent, e, _) =
        bind_inv (request_packet (modify teid b.eps_bearer_id b.s1_uteid_dl ip port) pkt) _ f0 in
      let (c, m, is_c, f, parsed) =
        modify_exchange u teid imsi b.eps_bearer_id b.s1_uteid_dl port ip src pkt rx sent g l h he
          hd hp clean short in
      let (q, _, hdr, flag_read) = read_flag (deliver m sent) 2 c.s11_cteid_smf true parsed in
      let served = sym (bind_ok (λ x. handle_s11 u src (deliver x rx)) e refl) ∙ f in
      let built =
        ap (λ n. build_gtp (octet n ∷ word b.s1_uteid_dl ∷ text ip ∷ int port ∷ []) 2 2 teid pkt)
          byte
        ∙ e in
      (
        c,
        is_c,
        pass zero_guti (ground arith) (
            bind_ok _
              (asked J "/Nudm_UECM/UECtx/RequestSMFModifyBearer" d (set_ctx d r.guti b)
                (J.set_num J.null "guti" r.guti) J.null z tells_bearer)
              (bind_ok _ (as_uint_lem J z "eps_bearer_id" b.eps_bearer_id ze (omega arith)) (
                bind_ok _ (as_uint_lem J z "s1_uteid_dl" b.s1_uteid_dl zd hd) (
                  bind_ok _ (as_uint_lem J z "s11_cteid_sgw" teid zs (teid_small u teid imsi l h)) (
                    bind_ok _ built (
                      bind_ok _ (bind_ok _ served refl)
                        (bind_ok _ hdr (bind_ok _ flag_read refl)))))))),
      )
