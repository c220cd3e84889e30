-- ===== src/Smf/Creation.antt =====
-- The creation of a session from the SMF's request on, with the UDM and the UPF behind it.
use g_core_rest_sba.Base.{
  ◌^◌, ◌<◌, ◌≡◌, ◌≢◌, refl, sym, ap, ◌∙◌, subst, true, some, [], ◌∷◌, arith, map,
}
use g_core_rest_sba.Base.Words.{u8}
use g_core_rest_sba.Base.Stop.{ok, zero_guti, bind_ok, bind_inv, pass}
use g_core_rest_sba.Json.{Json}
use g_core_rest_sba.Rest.{send_and_receive}
use g_core_rest_sba.Packet.Codec.{le_bytes}
use g_core_rest_sba.Packet.Header.{GtpInRange}
use g_core_rest_sba.Packet.Buffer.{Packet, deliver}
use g_core_rest_sba.Packet.Items.{octet, word, long, text, kind}
use g_core_rest_sba.Packet.Message.{build_gtp, parse_gtp}
use g_core_rest_sba.Udm.State as Udm
use g_core_rest_sba.Udm.State.{Udm, ctx, set_ctx}
use g_core_rest_sba.Udm.Server.{handle}
use g_core_rest_sba.Udm.Client.{asked, ctx-set_ctx}
use g_core_rest_sba.Upf.State.{Upf}
use g_core_rest_sba.Upf.Handlers.{SockAddr, handle_s11}
use g_core_rest_sba.Upf.Request.{Request, Reply, create, answer, address_of, enter}
use g_core_rest_sba.Upf.Refinement.{request_packet}
use g_core_rest_sba.Upf.Sessions.{Linked, Admissible}
use g_core_rest_sba.Upf.Exchange.{exchange, exchange_lem}
use g_core_rest_sba.Upf.Changes.{tables, replies}
use g_core_rest_sba.Attach.Network.{as_uint_lem}
use g_core_rest_sba.Smf.Handlers.{
  Smf, CreateSmContextRequest, CreateSmContextResponse, handle_create_session,
}
use g_core_rest_sba.Smf.Release.{n4}
use g_core_rest_sba.Smf.Creating.{
  read_session, create_value, begun, begun_reply, begins, created_value, settled, settled_reply,
  settles,
}

-- What the UPF is asked for, its tables then, and its reply.
abbrev pub session_of : CreateSmContextRequest → Request
session_of r = create r.s11_cteid_mme r.imsi r.eps_bearer_id r.apn_in_use r.tai

abbrev pub with_session : Upf → CreateSmContextRequest → Upf
with_session u r = enter u r.s11_cteid_mme r.imsi r.eps_bearer_id r.apn_in_use r.tai

abbrev session_reply : Upf → CreateSmContextRequest → Reply
session_reply u r = record {
  items = word r.s11_cteid_mme ∷ text (address_of u r.imsi) ∷ word r.s11_cteid_mme ∷ [];
  msg_type = 1;
  teid = r.s11_cteid_mme;
}

-- The request as a packet, and the answer of the UPF, up to what the SMF reads.
create_exchange :
    (u : Upf) (r : CreateSmContextRequest) (src : SockAddr) (p rx q : Packet)
    → GtpInRange p.gtp_hdr
    → Linked u
    → r.eps_bearer_id < 2 ^ 8
    → r.imsi < 2 ^ 64
    → r.apn_in_use < 2 ^ 64
    → r.tai < 2 ^ 64
    → Admissible u (session_of r)
    → (m : Packet) × (exchange src p rx u (session_of r) ≡ ok (with_session u r, (src, m) ∷ []))
      × (parse_gtp (map kind (session_reply u r).items) (deliver m q)
          ≡ ok (1, r.s11_cteid_mme, (session_reply u r).items))
      × Linked (with_session u r)
unfolding le_bytes answer
create_exchange u r src p rx q g l he hi ha ht good =
    let (v, reply, m, a, f, parsed, lv) =
      exchange_lem u src (session_of r) p rx q g (good.3, (hi, (he, (ha, (ht, tt))))) (omega arith)
        (omega arith) l good in
    let says : ok (with_session u r, session_reply u r) ≡ ok (v, reply) = a in
    (
      m,
      f ∙ ap (λ x. ok (x, (src, m) ∷ [])) (sym (tables says)),
      subst (λ y. parse_gtp (map kind y.items) (deliver m q) ≡ ok (y.msg_type, y.teid, y.items))
          (sym (replies says)) parsed,
      subst Linked (sym (tables says)) lv,
    )

-- The response that names the session: the tracking area timer in it is 0.
abbrev pub created : Smf → Upf → Udm.UeContext → CreateSmContextRequest → CreateSmContextResponse
created smf u c r = record {
  guti = r.guti;
  eps_bearer_id = r.eps_bearer_id;
  e_rab_id = r.eps_bearer_id;
  s1_uteid_ul = r.s11_cteid_mme;
  s11_cteid_sgw = r.s11_cteid_mme;
  k_enodeb = c.k_enodeb;
  tai_list_size = 1;
  tai_list = r.tai ∷ [];
  tau_timer = 0;
  ue_ip_addr = address_of u r.imsi;
  upf_s1_ip_addr = smf.upf_s1_ip_addr;
  upf_s1_port = smf.upf_s1_port;
  res = true;
}

module _ (J : Json) (smf : Smf) (d : Udm) (u : Upf) (src : SockAddr) (pkt rx : Packet)
    (r : CreateSmContextRequest) (g : GtpInRange pkt.gtp_hdr) (l : Linked u) (hg : r.guti ≢ 0)
    (he : r.eps_bearer_id < 2 ^ 8) (hi : r.imsi < 2 ^ 64) (ha : r.apn_in_use < 2 ^ 64)
    (ht : r.tai < 2 ^ 64) (good : Admissible u (session_of r)) where
  built :
      (sent : Packet)
      → request_packet (session_of r) pkt ≡ ok sent
      → build_gtp
          (word r.s11_cteid_mme
            ∷ long (J.num (begun_reply J r) "imsi")
            ∷ octet (u8 r.eps_bearer_id)
            ∷ long (J.num (begun_reply J r) "apn_in_use")
            ∷ long (J.num (begun_reply J r) "tai")
            ∷ [])
          2
          1
          0
          pkt
        ≡ ok sent
  built sent e =
      let z = begun_reply J r in
      let zi : J.num z "imsi" ≡ r.imsi = simp J.num_set_num in
      let za : J.num z "apn_in_use" ≡ r.apn_in_use = simp J.num_set_num in
      let zt : J.num z "tai" ≡ r.tai = simp J.num_set_num in
      let byte : u8 r.eps_bearer_id ≡ r.eps_bearer_id = omega arith in rw (zi, za, zt, byte) e

  responded :
      (c : Udm.UeContext)
      → (record (created smf u c r) {
        eps_bearer_id = u8 r.eps_bearer_id;
        e_rab_id = u8 r.eps_bearer_id;
        k_enodeb = J.num (settled_reply J (begun c r)) "k_enodeb";
        tai_list = J.nums (settled_reply J (begun c r)) "tai_list";
        tau_timer = J.num (settled_reply J (begun c r)) "tau_timer";
      })
        ≡ created smf u c r
  responded c =
      let y = settled_reply J (begun c r) in
      let r2 = J.set_num (J.set_num J.null "e_rab_id" r.eps_bearer_id) "k_enodeb" c.k_enodeb in
      let r3 = J.set_nums r2 "tai_list" (r.tai ∷ []) in
      let yk : J.num y "k_enodeb" ≡ c.k_enodeb =
        simp (J.num_set_num, J.num_set_nums r2 "tai_list" (r.tai ∷ []) "k_enodeb" refl) in
      let yl : J.nums y "tai_list" ≡ r.tai ∷ [] =
        J.nums_set_num r3 "tau_timer" 0 "tai_list" refl
        ∙ J.nums_set_nums r2 "tai_list" (r.tai ∷ []) "tai_list" in
      let yt : J.num y "tau_timer" ≡ 0 = simp J.num_set_num in
      let byte : u8 r.eps_bearer_id ≡ r.eps_bearer_id = omega arith in rw (yk, yl, yt, byte) refl

  -- The second request to the UDM, after the first.
  told_session :
      let mme = r.s11_cteid_mme in
      let c = begun (ctx d r.guti) r in
      let d1 = set_ctx d r.guti c in
      send_and_receive J
        (handle J "/Nudm_UECM/UECtx/UpdateSMFCreateSession")
        d1
        (created_value J r.guti (address_of u r.imsi) mme mme)
        J.null
      ≡ ok (set_ctx d1 r.guti (settled c (address_of u r.imsi) mme mme), true, settled_reply J c)
  told_session =
      let mme = r.s11_cteid_mme in
      let address = address_of u r.imsi in
      let c = begun (ctx d r.guti) r in
      let d1 = set_ctx d r.guti c in
      asked J "/Nudm_UECM/UECtx/UpdateSMFCreateSession" d1
        (set_ctx d1 r.guti (settled c address mme mme)) (created_value J r.guti address mme mme)
        J.null (settled_reply J c)
        (settles J d1 r.guti address mme mme good.3 good.3
          ∙ ap
              (λ x. ok (
                set_ctx d1 r.guti (settled x address mme mme),
                some (200, J.write (settled_reply J x)),
              ))
              (ctx-set_ctx d r.guti c))

  -- A creation request for a GUTI that is not 0, with values in range, whose session is admissible
  -- at a UPF with linked tables, runs through the UDM and the UPF to the end: the UPF enters the
  -- session under the TEID of the request and its tables stay linked, the UDM has the address and
  -- the TEIDs of the session, and the response names them, with a tracking area timer of 0 like
  -- that of the UDM.
  pub creates :
      let mme = r.s11_cteid_mme in
      (d' : Udm) × (handle_create_session J (handle J) (n4 src rx) smf pkt d u r
        ≡ ok (d', with_session u r, created smf u (ctx d r.guti) r))
      × (ctx d' r.guti ≡ settled (begun (ctx d r.guti) r) (address_of u r.imsi) mme mme)
      × Linked (with_session u r)
  unfolding handle_create_session
  creates =
      let mme = r.s11_cteid_mme in
      let address = address_of u r.imsi in
      let z = begun_reply J r in
      let c = begun (ctx d r.guti) r in
      let d1 = set_ctx d r.guti c in
      let d2 = set_ctx d1 r.guti (settled c address mme mme) in
      let y = settled_reply J c in
      let zm : J.num z "s11_cteid_mme" ≡ mme = simp J.num_set_num in
      let ze : J.num z "eps_bearer_id" ≡ r.eps_bearer_id = simp J.num_set_num in
      let r2 = J.set_num (J.set_num J.null "e_rab_id" r.eps_bearer_id) "k_enodeb" c.k_enodeb in
      let ye : J.num y "e_rab_id" ≡ r.eps_bearer_id =
        simp (J.num_set_num, J.num_set_nums r2 "tai_list" (r.tai ∷ []) "e_rab_id" refl) in
      let (_, f0, _, _) = create_exchange u r src pkt rx rx g l he hi ha ht good in
      let (sent, e, _) = bind_inv (request_packet (session_of r) pkt) _ f0 in
      let (m, f, parsed, linked) = create_exchange u r src pkt rx sent g l he hi ha ht good in
      let (q, q1, q2, q3, hdr, one, two, three) =
        read_session (deliver m sent) 1 mme mme address mme parsed in
      let served = sym (bind_ok (λ x. handle_s11 u src (deliver x rx)) e refl) ∙ f in
      (
        d2,
        pass zero_guti (ground arith) (
            bind_ok _
              (asked J "/Nudm_UECM/UECtx/RequestSMFCreateSession" d d1 (create_value J r) J.null z
                (begins J d r good.3 he))
              (bind_ok _ (as_uint_lem J z "s11_cteid_mme" mme zm good.3) (
                bind_ok _ (as_uint_lem J z "eps_bearer_id" r.eps_bearer_id ze (omega arith)) (
                  bind_ok _ (built sent e) (
                    bind_ok _ (bind_ok _ served refl) (
                      bind_ok _ hdr (
                        bind_ok _ one (
                          bind_ok _ two (
                            bind_ok _ three (
                              bind_ok _ told_session (
                                bind_ok _
                                  (as_uint_lem J y "e_rab_id" r.eps_bearer_id ye (omega arith))
                                  (ap (λ x. ok (d2, with_session u r, x))
                                    (responded (ctx d r.guti)))))))))))))),
        ctx-set_ctx d1 r.guti (settled c address mme mme),
        linked,
      )
