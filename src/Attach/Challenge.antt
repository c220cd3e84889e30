-- ===== src/Attach/Challenge.antt =====
-- `Amf::handle_initial_attach` as a whole: the challenge that goes to the UE, and what the AMF and
-- the UDM keep.
use g_core_rest_sba.Base.{ℕ, ◌+◌, ◌≡◌, refl, ap, ◌∙◌, some, List, [], ◌∷◌, arith}
use g_core_rest_sba.Base.Words.{u16, u32, u64}
use g_core_rest_sba.Base.Map.{put}
use g_core_rest_sba.Base.Stop.{Result, ok, ◌>>=◌, bind_ok}
use g_core_rest_sba.Packet.Codec.{byte_range}
use g_core_rest_sba.Packet.Header.{S1apInRange}
use g_core_rest_sba.Packet.Buffer.{Packet, extract_u64, extract_u16}
use g_core_rest_sba.Packet.Contents.{Reads}
use g_core_rest_sba.Packet.Items.{
  Item, long, half, AllInRange, images, num_Reads, extract_num-s1ap_hdr,
}
use g_core_rest_sba.Packet.Message.{build_s1ap}
use g_core_rest_sba.Telecom.Identity.{get_guti}
use g_core_rest_sba.Json.{Json}
use g_core_rest_sba.Udm.State.{Udm, ctx, set_ctx}
use g_core_rest_sba.Udm.Client.{told, ctx-set_ctx}
use g_core_rest_sba.Amf.State.{Amf, local, set_local}
use g_core_rest_sba.Amf.Attach.{handle_initial_attach}
use g_core_rest_sba.Attach.Vectors.{vector, xres_of, autn_of, k_asme_of}
use g_core_rest_sba.Attach.Network.{core, ausf_answers, entered, keyed, enters, keys}

-- The items of the request and of the challenge.
abbrev pub request_items : ℕ → ℕ → ℕ → ℕ → List Item
request_items imsi tai ksi capability = long imsi ∷ long tai ∷ long ksi ∷ half capability ∷ []

abbrev pub challenge_items : ℕ → ℕ → List Item
challenge_items key ksi = long (autn_of key key) ∷ long key ∷ long ksi ∷ []

module _ (J : Json) where
  abbrev init_value : ℕ → ℕ → ℕ → ℕ → ℕ → ℕ → J.Value
  init_value imsi guti tai enodeb mme capability =
      let q1 = J.set_num J.null "imsi" imsi in
      let q2 = J.set_num q1 "guti" guti in
      let q3 = J.set_num q2 "tai" tai in
      let q4 = J.set_num q3 "enodeb_s1ap_ue_id" enodeb in
      let q5 = J.set_num q4 "mme_s1ap_ue_id" mme in J.set_num q5 "nw_capability" capability

  init_value_lem :
      (imsi guti tai enodeb mme capability : ℕ)
      → let v = init_value imsi guti tai enodeb mme capability in
        (J.num v "guti" ≡ guti)
        × (J.num v "imsi" ≡ imsi)
        × (J.num v "tai" ≡ tai)
        × (J.num v "enodeb_s1ap_ue_id" ≡ enodeb)
        × (J.num v "mme_s1ap_ue_id" ≡ mme)
        × (J.num v "nw_capability" ≡ capability)
  init_value_lem imsi guti tai enodeb mme capability = (
    simp J.num_set_num,
    simp J.num_set_num,
    simp J.num_set_num,
    simp J.num_set_num,
    simp J.num_set_num,
    simp J.num_set_num,
  )

  abbrev vector_value : ℕ → ℕ → ℕ → J.Value
  vector_value imsi plmn_id nw_type =
      let r1 = J.set_num J.null "imsi" imsi in
      let r2 = J.set_num r1 "num_autn_vectors" 1 in
      let r3 = J.set_num r2 "plmn_id" plmn_id in J.set_num r3 "nw_type" nw_type

  abbrev keys_value : ℕ → J.Value → J.Value
  keys_value guti res =
      let w1 = J.set_num J.null "guti" guti in
      let w2 = J.set_num w1 "xres" (J.num res "xres") in
      let w3 = J.set_num w2 "k_asme" (J.num res "k_asme") in J.set_num w3 "ksi_asme" 1

  vector_lem :
      (key plmn_id : ℕ)
      → let v = vector J key plmn_id in
        (J.num v "autn_num" ≡ autn_of key key)
        × (J.num v "rand_num" ≡ key)
        × (J.num v "xres" ≡ xres_of key key)
        × (J.num v "k_asme" ≡ k_asme_of key key plmn_id)
  vector_lem key plmn_id =
      (simp J.num_set_num, simp J.num_set_num, simp J.num_set_num, simp J.num_set_num)

  -- The AMF answers an attach request with a challenge for the key that the UDM's database has.
  pub challenge_lem :
      (a : Amf) (u : Udm) (pkt : Packet) (imsi tai ksi capability key rand_num guti : ℕ)
      → S1apInRange pkt.s1ap_hdr
      → AllInRange (request_items imsi tai ksi capability)
      → Reads pkt (images (request_items imsi tai ksi capability))
      → get_guti a.amf_ids.guamfi imsi ≡ ok guti
      → u.autn_info imsi ≡ some (key, rand_num)
      → let enodeb = pkt.s1ap_hdr.enodeb_s1ap_ue_id in
        let mme = u32 (u64 (a.ue_count + 1)) in
        (b : Amf) × (v : Udm) × (w : Packet) × (handle_initial_attach J (core J) a u pkt
          ≡ (build_s1ap (challenge_items key ksi) 1 enodeb mme w >>= λ m. ok (b, v, m ∷ [])))
        × (w.s1ap_hdr ≡ pkt.s1ap_hdr)
        × (b.s1amf_id ≡ put a.s1amf_id mme guti)
        × ((ctx v guti).xres ≡ xres_of key key)
        × ((ctx v guti).k_asme ≡ k_asme_of key key a.amf_ids.plmn_id)
        × ((ctx v guti).ksi_asme ≡ 1)
        × ((ctx v guti).nw_capability ≡ u16 capability)
  unfolding handle_initial_attach extract_u64 extract_u16 byte_range set_local set_ctx
  challenge_lem a u pkt imsi tai ksi capability key rand_num guti g clean reads eg row =
      let enodeb = pkt.s1ap_hdr.enodeb_s1ap_ue_id in
      let mme = u32 (u64 (a.ue_count + 1)) in
      let (p1, e1, r1, _) = num_Reads pkt 8 imsi _ clean.0 reads in
      let (p2, e2, r2, _) = num_Reads p1 8 tai _ clean.1.0 r1 in
      let (p3, e3, r3, _) = num_Reads p2 8 ksi _ clean.1.1.0 r2 in
      let (p4, e4, r4, _) = num_Reads p3 2 capability _ clean.1.1.1.0 r3 in
      let q = init_value imsi guti tai enodeb mme capability in
      let (ig, ii, it, ie, im, ic) = init_value_lem imsi guti tai enodeb mme capability in
      let u1 = entered J u guti imsi tai enodeb mme capability in
      let (d1, x1, t1) = told J "/Nudm_UECM/UpdateInitialAttachInit" u u1 q J.null (
        enters J u q guti imsi tai enodeb mme capability ig ii it ie im ic g.enodeb_s1ap_ue_id
          (omega arith) (omega (arith, clean.1.1.1.0))) in
      let a1 : Amf = record a {
        ue_count = u64 (a.ue_count + 1);
        s1amf_id = put a.s1amf_id mme guti;
      } in
      let r = vector_value imsi a.amf_ids.plmn_id (local a1 guti).nw_type in
      let v = vector J key a.amf_ids.plmn_id in
      let (va, vr, vx, vk) = vector_lem key a.amf_ids.plmn_id in
      let t2 =
        ausf_answers J u1 r J.null imsi key rand_num a.amf_ids.plmn_id (simp J.num_set_num)
          (simp J.num_set_num) row in
      let k = keys_value guti v in
      let u3 = keyed J u1 guti (xres_of key key) (k_asme_of key key a.amf_ids.plmn_id) 1 in
      let (d3, x3, t3) = told J "/Nudm_UECM/UpdateInitialAttach" u1 u3 k J.null (
        keys J u1 k guti (xres_of key key) (k_asme_of key key a.amf_ids.plmn_id) 1
          (simp J.num_set_num) (simp J.num_set_num) (simp J.num_set_num) (simp J.num_set_num)) in
      let b = set_local a1 guti (local a1 guti) in
      let sent : ℕ → ℕ → Result (Amf × Udm × List Packet) = λ t n.
        build_s1ap (long t ∷ long n ∷ long ksi ∷ []) 1 enodeb mme p4 >>= λ m. ok (b, u3, m ∷ []) in
      let same = ap (λ t. sent t (J.num v "rand_num")) va ∙ ap (sent (autn_of key key)) vr in
      let asked_all = bind_ok _ eg (bind_ok _ t1 (bind_ok _ t2 (bind_ok _ t3 same))) in
      (
        b,
        u3,
        p4,
        bind_ok _ e1 (bind_ok _ e2 (bind_ok _ e3 (bind_ok _ e4 asked_all))),
        (extract_num-s1ap_hdr 2 p3 capability p4 e4
            ∙ extract_num-s1ap_hdr 8 p2 ksi p3 e3
            ∙ extract_num-s1ap_hdr 8 p1 tai p2 e2
            ∙ extract_num-s1ap_hdr 8 pkt imsi p1 e1),
        refl,
        ap (λ c. c.xres) (ctx-set_ctx u1 guti _),
        ap (λ c. c.k_asme) (ctx-set_ctx u1 guti _),
        ap (λ c. c.ksi_asme) (ctx-set_ctx u1 guti _),
        ap (λ c. c.nw_capability) (ctx-set_ctx u1 guti _)
            ∙ ap (λ c. c.nw_capability) (ctx-set_ctx u guti _),
      )
