-- ===== src/Attach/Run.antt =====
-- The authentication of an attach from end to end: the RAN's request, the AMF with the AUSF and the
-- UDM behind it, the UE's answer, the AMF's judgement.
use g_core_rest_sba.Base.{
  ℕ, ◌+◌, ◌^◌, ◌<◌, ◌≡◌, ◌≢◌, refl, sym, ap, ◌∙◌, subst, ◌==◌, Bool, true, false, some, List, [],
  ◌∷◌, arith, unless, when,
}
use g_core_rest_sba.Base.Words.{u16, u32, u64}
use g_core_rest_sba.Base.Map.{put, put_get}
use g_core_rest_sba.Base.Stop.{Result, ok, ◌>>=◌, bind_ok}
use g_core_rest_sba.Packet.Codec.{le_bytes}
use g_core_rest_sba.Packet.Header.{S1apInRange}
use g_core_rest_sba.Packet.Buffer.{Packet, deliver}
use g_core_rest_sba.Packet.Items.{long, AllInRange, images}
use g_core_rest_sba.Packet.Copies.{copied}
use g_core_rest_sba.Packet.Message.{s1ap_arrives}
use g_core_rest_sba.Telecom.Identity.{get_guti}
use g_core_rest_sba.Json.{Json}
use g_core_rest_sba.Udm.State.{Udm, ctx}
use g_core_rest_sba.Amf.State.{Amf, Sent, to_ue, to_source, to_target}
use g_core_rest_sba.Amf.Server.{handle_ue}
use g_core_rest_sba.Net.Udp.{N4}
use g_core_rest_sba.Rest.{Routes}
use g_core_rest_sba.Security.Openssl.{Openssl}
use g_core_rest_sba.Security.Seal.{Message}
use g_core_rest_sba.Attach.SecurityMode.{command_items}
use g_core_rest_sba.Attach.Judgement.{new_ue_lem, accepts}
use g_core_rest_sba.Ran.Context.{RanContext, initial_attach, authenticate}
use g_core_rest_sba.Attach.Vectors.{xres_of, autn_of, k_asme_of, autn-injective}
use g_core_rest_sba.Attach.Network.{core}
use g_core_rest_sba.Attach.Challenge.{request_items, challenge_items, challenge_lem}
use g_core_rest_sba.Attach.Answer.{verdict, authenticate_lem}

-- The state of everybody after the run, whether the UE accepted the network, and what the AMF sent in
-- the end.
abbrev pub Outcome : Type 0
Outcome = Result (RanContext × Amf × Udm × Bool × List Sent)

module _ (J : Json) (O : Openssl) (smf : Routes Udm J.Text) (upf : N4 Udm) (rx : Packet) where
  abbrev judge : RanContext → Amf → Udm → Bool → List Packet → Outcome
  judge c a u accepted [] = ok (c, a, u, accepted, [])
  judge c a u accepted (m ∷ ms) = do
    (_, a', u', sent) ← handle_ue J O (core J) smf upf a u (deliver m rx)
    ok (c, a', u', accepted, sent)

  -- The UE reads the first answer on its own connection.
  abbrev challenge : RanContext → Amf → Udm → Packet → List Sent → Outcome
  challenge c a u p [] = ok (c, a, u, false, [])
  challenge c a u p (to_source m ∷ ms) = challenge c a u p ms
  challenge c a u p (to_target m ∷ ms) = challenge c a u p ms
  challenge c a u p (to_ue m ∷ ms) = do
    (c', accepted, replies) ← authenticate c (deliver m p)
    judge c' a u accepted replies

  -- `p` is the RAN's packet and `rx` the AMF's.
  abbrev pub attach : RanContext → Amf → Udm → Packet → Outcome
  attach c a u p = do
    m ← initial_attach c p
    (_, a', u', sent) ← handle_ue J O (core J) smf upf a u (deliver m rx)
    challenge c a' u' m sent

-- The members of a UE's context are values of their C++ types.
pub record RanInRange (c : RanContext) : Type 0 where
  pub imsi : c.imsi < 2 ^ 64
  pub tai : c.tai < 2 ^ 64
  pub ksi_asme : c.ksi_asme < 2 ^ 64
  pub nw_capability : c.nw_capability < 2 ^ 16
  pub enodeb_s1ap_ue_id : c.enodeb_s1ap_ue_id < 2 ^ 32
  pub key : c.key < 2 ^ 64

module _ (J : Json) (O : Openssl) (smf : Routes Udm J.Text) (upf : N4 Udm) (rx : Packet)
    (c : RanContext) (a : Amf) (u : Udm) (p : Packet) (key rand_num guti : ℕ)
    (g : S1apInRange p.s1ap_hdr) (r : RanInRange c) (small : key < 2 ^ 64)
    (identity : get_guti a.amf_ids.guamfi c.imsi ≡ ok guti)
    (row : u.autn_info c.imsi ≡ some (key, rand_num)) where
  -- Up to the UE's verdict on the challenge.
  challenged :
      let mme = u32 (u64 (a.ue_count + 1)) in
      (b : Amf) × (v : Udm) × (w : Packet) × (attach J O smf upf rx c a u p ≡ (
        verdict c (autn_of key key) key c.ksi_asme mme w >>= λ x.
        judge J O smf upf rx x.0 b v x.1 x.2))
      × S1apInRange w.s1ap_hdr
      × (b.s1amf_id ≡ put a.s1amf_id mme guti)
      × ((ctx v guti).xres ≡ xres_of key key)
      × ((ctx v guti).k_asme ≡ k_asme_of key key a.amf_ids.plmn_id)
      × ((ctx v guti).ksi_asme ≡ 1)
      × ((ctx v guti).nw_capability ≡ u16 c.nw_capability)
  unfolding initial_attach le_bytes handle_ue deliver
  challenged =
      let mme = u32 (u64 (a.ue_count + 1)) in
      let clean : AllInRange (request_items c.imsi c.tai c.ksi_asme c.nw_capability) =
        (r.imsi, (r.tai, (r.ksi_asme, (r.nw_capability, tt)))) in
      let (m, q0, e, f, here0, open_at_amf) =
        s1ap_arrives p (request_items c.imsi c.tai c.ksi_asme c.nw_capability) 1 c.enodeb_s1ap_ue_id
          0 g clean (omega arith) r.enodeb_s1ap_ue_id (omega arith) (omega arith) rx in
      let (q, k, here) = copied q0 1 c.enodeb_s1ap_ue_id 0 _ here0 in
      let (b, v, w0, h, keep, hs, hx, hk, hi, hn) =
        challenge_lem J a u q c.imsi c.tai c.ksi_asme c.nw_capability key rand_num guti
          here.in_range clean here.reads identity row in
      let enodeb = q.s1ap_hdr.enodeb_s1ap_ue_id in
      let sent : AllInRange (challenge_items key c.ksi_asme) =
        (omega arith, (small, (r.ksi_asme, tt))) in
      let (m2, q2, e2, f2, there, some_bytes) =
        s1ap_arrives w0 (challenge_items key c.ksi_asme) 1 enodeb mme
          (subst S1apInRange (sym keep) here.in_range) sent (omega arith)
          here.in_range.enodeb_s1ap_ue_id (omega arith) (omega arith) m in
      let (w, said, gw) =
        authenticate_lem c (deliver m2 m) q2 (autn_of key key) key c.ksi_asme enodeb mme some_bytes
          f2 there sent in
      let served =
        new_ue_lem J O smf upf a u q0 q here0.is_mme here0.is_type k
        ∙ bind_ok _ (h ∙ bind_ok _ e2 refl) refl in
      (
        b,
        v,
        w,
        bind_ok _ e (
            bind_ok _ (unless (ok (0, a, u, [])) open_at_amf (bind_ok _ f (bind_ok _ served refl)))
              (ap (λ x. x >>= λ y. judge J O smf upf rx y.0 b v y.1 y.2) said)),
        gw,
        hs,
        hx,
        hk,
        hi,
        hn,
      )

  -- The request, the challenge and the response of an attach run to the end between the RAN,
  -- handle_ue of the AMF, the AUSF and the UDM: for a UE whose key is the one in the database and
  -- whose PLMN is that of the AMF, with values in range and a GUTI that is not 0, at an AMF that
  -- has counted fewer than 2 ^ 32 - 1 UEs, the UE accepts the network, and the AMF answers its
  -- response with the security mode command of the UDM's context, for the number that it gave to
  -- the UE. It then has the GUTI under that number, and the key that the UE derives is the one
  -- that the UDM keeps for the GUTI.
  pub attach_accepted :
      c.key ≡ key
      → c.plmn_id ≡ a.amf_ids.plmn_id
      → guti ≢ 0
      → a.ue_count + 1 < 2 ^ 32
      → (c' : RanContext) × (b : Amf) × (v : Udm) × (m : Packet) × (attach J O smf upf rx c a u p
          ≡ ok (c', b, v, true, to_ue m ∷ []))
        × Message O m (images (command_items (ctx v guti))) 2 c.enodeb_s1ap_ue_id (a.ue_count + 1)
        × (b.s1amf_id (a.ue_count + 1) ≡ some guti)
        × ((ctx v guti).k_asme ≡ c'.k_asme)
  unfolding le_bytes handle_ue deliver
  attach_accepted same plmn known few =
      let mme = u32 (u64 (a.ue_count + 1)) in
      let (b, v, w, run, gw, hs, hx, hk, hi, hn) = challenged in
      let fits : (autn_of c.key key == autn_of key key) ≡ true = ground arith in
      let res = xres_of c.key key in
      let numbered : mme ≡ a.ue_count + 1 = omega arith in
      let (m, q0, e, f, here0, open_at_amf) =
        s1ap_arrives w (long res ∷ []) 2 c.enodeb_s1ap_ue_id mme gw (omega arith, tt) (omega arith)
          r.enodeb_s1ap_ue_id (omega arith) (omega arith) rx in
      let (b2, v3, m2, served, told_ue, table, kept) =
        accepts J O smf upf b v q0 guti res c.enodeb_s1ap_ue_id mme here0 (omega arith)
          (omega arith) (ap (λ m. m mme) hs ∙ put_get a.s1amf_id mme guti) known
          (hx ∙ ap (λ k. xres_of k key) (sym same)) (omega (arith, hi)) (omega (arith, hn)) in
      (
        record c {
          mme_s1ap_ue_id = mme;
          ksi_asme = c.ksi_asme;
          k_asme = k_asme_of c.key key c.plmn_id;
        },
        b2,
        v3,
        m2,
        run
            ∙ bind_ok _ (when _ fits (bind_ok _ e refl)) (
                bind_ok _
                  (unless (ok (0, b, v, [])) open_at_amf (bind_ok _ f (bind_ok _ served refl)))
                  refl),
        subst (Message O m2 (images (command_items (ctx v3 guti))) 2 c.enodeb_s1ap_ue_id) numbered
            told_ue,
        ap (λ t. t (a.ue_count + 1)) (table ∙ hs)
            ∙ ap (put a.s1amf_id mme guti) (sym numbered)
            ∙ put_get a.s1amf_id mme guti,
        kept
            ∙ hk
            ∙ ap (λ k. k_asme_of k key a.amf_ids.plmn_id) (sym same)
            ∙ ap (k_asme_of c.key key) (sym plmn),
      )

  -- A UE in range whose key differs from the one in the database, both 64-bit numbers, refuses the
  -- challenge that handle_ue of the AMF has sent it, and the run ends without an acceptance: the
  -- UE sends nothing, and so the AMF does not answer.
  pub attach_refused :
      c.key ≢ key
      → (c' : RanContext) × (b : Amf) × (v : Udm) × (attach J O smf upf rx c a u p
          ≡ ok (c', b, v, false, []))
  attach_refused other =
      let mme = u32 (u64 (a.ue_count + 1)) in
      let (b, v, w, run, _, _, _, _, _, _) = challenged in
      let unfit : (autn_of c.key key == autn_of key key) ≡ false =
        ground (arith, autn-injective c.key key key r.key small) in
      (
        record c { mme_s1ap_ue_id = mme; ksi_asme = c.ksi_asme },
        b,
        v,
        run ∙ bind_ok _ (unless _ unfit refl) refl,
      )
