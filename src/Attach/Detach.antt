-- ===== src/Attach/Detach.antt =====
-- The detach of a UE from end to end: src/ran.cpp, src/amf.cpp with src/amf_server.cpp, the UDM, and the
-- SMF with the UPF behind it.
use Prim.Native.String.{String}
use g_core_rest_sba.Base.{
  ℕ, ◌^◌, ◌<◌, ◌≡◌, ◌≢◌, refl, ap, ◌∙◌, Bool, true, false, some, List, [], ◌∷◌, arith, unless, when,
}
use g_core_rest_sba.Base.Words.{u8}
use g_core_rest_sba.Base.Stop.{Result, ok, zero_guti, ◌>>=◌, bind_ok, bind_inv, pass}
use g_core_rest_sba.Json.{Json, bool_member}
use g_core_rest_sba.Rest.{Routes, send_and_receive}
use g_core_rest_sba.Net.Udp.{N4}
use g_core_rest_sba.Net.Stream.{is_closed}
use g_core_rest_sba.Packet.Header.{GtpInRange, S1apInRange}
use g_core_rest_sba.Packet.Codec.{byte_range, le_bytes}
use g_core_rest_sba.Packet.Buffer.{Packet, extract_s1ap_hdr, extract_u64}
use g_core_rest_sba.Packet.Items.{Item, flag, long, images}
use g_core_rest_sba.Udm.State.{Udm, ctx, set_ctx}
use g_core_rest_sba.Udm.State as Udm
use g_core_rest_sba.Udm.Handlers.{nas_keys, ue_ctx_request_handle_detach}
use g_core_rest_sba.Udm.Server.{callback, handle}
use g_core_rest_sba.Udm.Client.{asked, ctx-set_same}
use g_core_rest_sba.Upf.State.{Upf, UeContext}
use g_core_rest_sba.Upf.Handlers.{SockAddr}
use g_core_rest_sba.Upf.Sessions.{Linked}
use g_core_rest_sba.Upf.Changes.{without}
use g_core_rest_sba.Ausf
use g_core_rest_sba.Smf.Handlers.{Smf}
use g_core_rest_sba.Smf.Release.{n4}
use g_core_rest_sba.Smf.Releasing.{release_value, releases}
use g_core_rest_sba.Smf.Server.{Memory, handle_s11_traffic}
use g_core_rest_sba.Amf.State.{Amf, Peers, guti_of, rem_local, rem_s1amf_id}
use g_core_rest_sba.Amf.Bearer.{handle_detach}
use g_core_rest_sba.Ran.Context.{RanContext}
use g_core_rest_sba.Ran.Session.{request_detach, detached}
use g_core_rest_sba.Security.Openssl.{Openssl}
use g_core_rest_sba.Security.Seal.{Message, built_nas, cipher}
use g_core_rest_sba.Security.Filled.{filled}
use g_core_rest_sba.Security.Arrival.{Delivered, opens, flag_lem, num_lem}
use g_core_rest_sba.Attach.Network.{as_uint_lem}

-- The SMF, the UDM and the UPF.
abbrev pub Core : Type 0
Core = Smf × Udm × Upf

-- What a UE that goes says.
abbrev pub detach_items : ℕ → ℕ → List Item
detach_items guti ksi = long guti ∷ long ksi ∷ long 1 ∷ []

module _ (J : Json) where
  abbrev of_udm : Routes Udm J.Text → Routes Core J.Text
  of_udm r route (x, d, y) body = do (d', response) ← r route d body; ok ((x, d', y), response)

  abbrev pub peers : Peers Core J.Text
  peers = record { udm = of_udm (handle J); ausf = of_udm (Ausf.rest_server J (handle J)) }

  abbrev pub n4_core : SockAddr → Packet → N4 Core
  n4_core src rx (x, d, y) m = do (y', out) ← n4 src rx y m; ok ((x, d, y'), out)

  asked_core :
      (r : Routes Udm J.Text) (route : String) (x : Smf) (d w : Udm) (y : Upf) (v recv z : J.Value)
      (done : Bool)
      → send_and_receive J (r route) d v recv ≡ ok (w, done, z)
      → send_and_receive J (of_udm r route) (x, d, y) v recv ≡ ok ((x, w, y), done, z)
  unfolding send_and_receive
  asked_core r route x d w y v recv z done e =
      let (mid, f, g) = bind_inv (r route d (J.write v)) _ e in
      bind_ok _ (bind_ok _ f refl)
        (ap (λ (o : Result (Udm × Bool × J.Value)). o >>= λ t. ok ((x, t.0, y), t.1, t.2)) g)

  -- What the UDM answers about a UE that goes.
  abbrev told : Udm.UeContext → J.Value
  told c =
      let r3 = J.set_num (nas_keys J c) "eps_bearer_id" c.eps_bearer_id in
      let r4 = J.set_num r3 "tai" c.tai in J.set_num r4 "s11_cteid_upf" c.s11_cteid_upf

  tells :
      (d : Udm) (guti : ℕ)
      → callback J "/Nudm_UECM/UECtx/HandleDetach" d (J.set_num J.null "guti" guti)
        ≡ ok (set_ctx d guti (ctx d guti), some (200, J.write (told (ctx d guti))))
  unfolding callback ue_ctx_request_handle_detach
  tells d guti =
      ap (λ g. ok (set_ctx d g (ctx d g), some (200, J.write (told (ctx d g)))))
        (J.num_set_num J.null "guti" guti "guti")

  told_lem :
      (c : Udm.UeContext)
      → (J.num (told c) "eps_bearer_id" ≡ c.eps_bearer_id)
        × (J.num (told c) "tai" ≡ c.tai)
        × (J.num (told c) "s11_cteid_upf" ≡ c.s11_cteid_upf)
  told_lem c = (simp J.num_set_num, simp J.num_set_num, simp J.num_set_num)

  says_so : bool_member J (J.set_bool J.null "res" true) "res" false ≡ true
  unfolding bool_member
  says_so =
      let v = J.set_bool J.null "res" true in
      let named : J.has v "res" ≡ true = simp J.has_set_bool in
      let yes : J.bool v "res" ≡ true = simp J.bool_set_bool in when false named yes

  abbrev pub smf_routes : SockAddr → Packet → Memory → Routes Core J.Text
  smf_routes src n4_rx memory = handle_s11_traffic J (handle J) (n4 src n4_rx) memory

  module _ (O : Openssl) (src : SockAddr) (n4_rx : Packet) (memory : Memory)
      (g : GtpInRange memory.pkt.gtp_hdr) where
    -- The AMF, on the message of a UE that it knows by one GUTI, and that names another or the same.
    pub goes :
        (a : Amf) (x : Smf) (d : Udm) (y : Upf) (q : Packet) (sender guti ksi enodeb mme imsi : ℕ)
        → guti_of a q ≡ sender
        → sender ≢ 0
        → guti ≢ 0
        → Delivered O q (cipher O (images (detach_items guti ksi))) 5 enodeb mme
        → guti < 2 ^ 64
        → ksi < 2 ^ 64
        → (ctx d sender).eps_bearer_id < 2 ^ 8
        → (ctx d sender).s11_cteid_upf < 2 ^ 32
        → (ctx d sender).tai < 2 ^ 64
        → Linked y
        → y.s11_id (ctx d guti).s11_cteid_sgw ≡ some imsi
        → (c : UeContext) × (y.ue_ctx imsi ≡ some c)
          × (d' : Udm) × ((n : ℕ) → ctx d' n ≡ ctx d n)
          × (m : Packet) × (handle_detach J O peers (smf_routes src n4_rx memory) a (x, d, y) q
              ≡ ok (
                rem_local (rem_s1amf_id a q.s1ap_hdr.mme_s1ap_ue_id) guti,
                (x, d', without y (ctx d guti).s11_cteid_sgw imsi c.ip_addr),
                m ∷ [],
              ))
          × Message O m
              (cipher O (images (flag true ∷ [])))
              5
              q.s1ap_hdr.enodeb_s1ap_ue_id
              q.s1ap_hdr.mme_s1ap_ue_id
    unfolding handle_detach extract_u64 byte_range le_bytes
    goes a x d y q sender guti ksi enodeb mme imsi known is_known nonzero here hg hk he hs ht l h =
        let is = detach_items guti ksi in
        let b = ctx d sender in
        let d1 = set_ctx d sender b in
        let same : ctx d1 guti ≡ ctx d guti = ctx-set_same d sender guti in
        let v = told b in
        let (ve, vt, vs) = told_lem b in
        let (checked, deciphered, reads) =
          opens O q is 5 enodeb mme (J.num v "k_nas_enc") (J.num v "k_nas_int") here
            (omega arith) in
        let (e1, r1) = num_lem (filled q (images is)) 8 guti _ hg reads in
        let (e2, r2) = num_lem _ 8 ksi _ hk r1 in
        let (e3, _) = num_lem _ 8 1 [] (omega arith) r2 in
        let (m, sent, msg) =
          built_nas O q (flag true ∷ []) 5 q.s1ap_hdr.enodeb_s1ap_ue_id q.s1ap_hdr.mme_s1ap_ue_id
            here.in_range (tt, tt) (omega arith) here.in_range.enodeb_s1ap_ue_id
            here.in_range.mme_s1ap_ue_id (omega arith) (J.num v "k_nas_enc")
            (J.num v "k_nas_int") in
        let asks : ℕ → ℕ → Result (Core × Bool × J.Value) = λ e t.
          send_and_receive J (smf_routes src n4_rx memory "/Nsmf_PDUSession/ReleaseSMContext")
            (x, d1, y) (release_value J guti e t) J.null in
        let byte : u8 b.eps_bearer_id ≡ b.eps_bearer_id = omega arith in
        let (c, is_c, released) =
          releases J x d1 y src n4_rx memory guti b.eps_bearer_id b.tai imsi g l nonzero he ht
            (ap (λ k. y.s11_id k.s11_cteid_sgw) same ∙ h) in
        let d2 = set_ctx d1 guti (ctx d1 guti) in
        let done : asks (u8 b.eps_bearer_id) (J.num v "tai")
            ≡ ok (
              (x, d2, without y (ctx d guti).s11_cteid_sgw imsi c.ip_addr),
              true,
              J.set_bool J.null "res" true,
            ) =
          ap (λ e. asks e (J.num v "tai")) byte
          ∙ ap (asks b.eps_bearer_id) vt
          ∙ released
          ∙ ap
              (λ k. ok (
                (x, d2, without y k.s11_cteid_sgw imsi c.ip_addr),
                true,
                J.set_bool J.null "res" true,
              ))
              same in
        (
          c,
          is_c,
          d2,
          λ n. ctx-set_same d1 guti n ∙ ctx-set_same d sender n,
          m,
          rw known (
              pass zero_guti (ground arith) (
                bind_ok _
                  (asked_core (handle J) "/Nudm_UECM/UECtx/HandleDetach" x d d1 y _ J.null v true
                    (asked J "/Nudm_UECM/UECtx/HandleDetach" d d1 _ J.null v (tells d sender)))
                  (bind_ok _ (as_uint_lem J v "eps_bearer_id" b.eps_bearer_id ve (omega arith)) (
                    bind_ok _ (as_uint_lem J v "s11_cteid_upf" b.s11_cteid_upf vs hs) (
                      bind_ok _ checked (
                        bind_ok _ deciphered (
                          bind_ok _ e1 (
                            bind_ok _ e2 (
                              bind_ok _ e3
                                (bind_ok _ done (when _ says_so (bind_ok _ sent refl)))))))))))),
          msg,
        )

-- The two ends of the RAN.
module _ (O : Openssl) where
  pub asks_to_go :
      (c : RanContext) (p : Packet)
      → S1apInRange p.s1ap_hdr
      → c.guti < 2 ^ 64
      → c.ksi_asme < 2 ^ 64
      → c.enodeb_s1ap_ue_id < 2 ^ 32
      → c.mme_s1ap_ue_id < 2 ^ 32
      → (m : Packet) × (request_detach O c p ≡ ok m)
        × Message O m
            (cipher O (images (detach_items c.guti c.ksi_asme)))
            5
            c.enodeb_s1ap_ue_id
            c.mme_s1ap_ue_id
  unfolding request_detach le_bytes
  asks_to_go c p g hg hk he hm =
      built_nas O p (detach_items c.guti c.ksi_asme) 5 c.enodeb_s1ap_ue_id c.mme_s1ap_ue_id g
        (hg, (hk, (omega arith, tt))) (omega arith) he hm (omega arith) c.k_nas_enc c.k_nas_int

  pub gone :
      (c : RanContext) (received q : Packet) (enodeb mme : ℕ)
      → is_closed received.len ≡ false
      → extract_s1ap_hdr received ≡ ok q
      → Delivered O q (cipher O (images (flag true ∷ []))) 5 enodeb mme
      → detached O c received ≡ ok true
  unfolding detached
  gone c received q enodeb mme some_bytes e here =
      let (checked, deciphered, reads) =
        opens O q (flag true ∷ []) 5 enodeb mme c.k_nas_enc c.k_nas_int here (omega arith) in
      let (read, _) = flag_lem (filled q (images (flag true ∷ []))) true [] reads in
      unless (ok false) some_bytes
        (bind_ok _ e (bind_ok _ checked (bind_ok _ deciphered (bind_ok _ read refl))))
