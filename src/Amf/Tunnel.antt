-- ===== src/Amf/Tunnel.antt =====
-- The handover of src/amf.cpp with the UPF behind it: which tunnel is set up.
use g_core_rest_sba.Base.{
  ℕ, ◌+◌, ◌^◌, ◌<◌, ◌≡◌, refl, sym, ap, ◌∙◌, subst, true, none, List, [], ◌∷◌, arith, map,
}
use g_core_rest_sba.Base.Words.{u32}
use g_core_rest_sba.Base.Map.{put, get_or}
use g_core_rest_sba.Base.Stop.{Result, ok, ◌>>=◌, bind_ok, bind_inv}
use g_core_rest_sba.Packet.Codec.{le_bytes, byte_range}
use g_core_rest_sba.Packet.Header.{GtpInRange, S1apInRange, init_gtp}
use g_core_rest_sba.Packet.Buffer.{
  Packet, clear_pkt, deliver, prepend_gtp_hdr, prepend_item, extract_bytes, extract_num,
  extract_bool, extract_u32, extract_gtp_hdr,
}
use g_core_rest_sba.Packet.Items.{
  Item, flag, word, kind, append_items, append_items-SameHeaders, num_Reads, flag_Reads,
  extract_num-s1ap_hdr,
}
use g_core_rest_sba.Packet.Message.{
  ArrivedS1, build_gtp, build_s1ap, parse_s1ap, gtp_arrives, s1ap_arrives, s1ap_round_trip,
}
use g_core_rest_sba.Upf.State.{Upf, ue, ho_ue, new_ue}
use g_core_rest_sba.Upf.Handlers.{SockAddr, handle_s11}
use g_core_rest_sba.Upf.Request.{setup, answer, imsi_of}
use g_core_rest_sba.Upf.Refinement.{request_served}
use g_core_rest_sba.Smf.Release.{n4}
use g_core_rest_sba.Amf.State.{Amf, Sent, to_source, local, set_local, guti_of}
use g_core_rest_sba.Amf.Handover.{setup_indirect_tunnel}
use g_core_rest_sba.Amf.Numbers.{Sound, local-NoTunnel}

clear_pkt-s1ap_hdr : (p : Packet) → (clear_pkt p).s1ap_hdr ≡ p.s1ap_hdr
unfolding clear_pkt
clear_pkt-s1ap_hdr p = refl

prepend_gtp-s1ap_hdr :
    (protocol t n teid : ℕ) (p q : Packet)
    → prepend_gtp_hdr protocol t n teid p ≡ ok q
    → q.s1ap_hdr ≡ p.s1ap_hdr
unfolding prepend_gtp_hdr prepend_item init_gtp
prepend_gtp-s1ap_hdr protocol t n teid p q e = ground arith

-- A GTP message leaves the S1AP header of the packet alone, and so does reading one.
build_gtp-s1ap_hdr :
    (is : List Item) (t teid : ℕ) (p q : Packet)
    → build_gtp is 2 t teid p ≡ ok q
    → q.s1ap_hdr ≡ p.s1ap_hdr
build_gtp-s1ap_hdr is t teid p q e =
    let (m, f, g) = bind_inv (append_items is (clear_pkt p)) _ e in
    prepend_gtp-s1ap_hdr 2 t m.len teid m q g
    ∙ (append_items-SameHeaders is (clear_pkt p) m f).1
    ∙ clear_pkt-s1ap_hdr p

deliver-s1ap_hdr : (c p q : Packet) → extract_gtp_hdr (deliver c p) ≡ ok q → q.s1ap_hdr ≡ p.s1ap_hdr
unfolding deliver extract_gtp_hdr extract_bytes
deliver-s1ap_hdr c p q e = ground arith

extract_bool-s1ap_hdr : (p q : Packet) → extract_bool p ≡ ok (true, q) → q.s1ap_hdr ≡ p.s1ap_hdr
unfolding extract_bool extract_num extract_bytes
extract_bool-s1ap_hdr p q e = ground arith

module _ (n : ℕ) (a : Amf) (u : Upf) (src : SockAddr) (q rx : Packet) (dl enodeb mme : ℕ)
    (h : Sound n a) (here : ArrivedS1 q 8 enodeb mme (word dl ∷ [])) (g : GtpInRange q.gtp_hdr)
    (low : dl < 2 ^ 32) (nobody : u.s11_id 0 ≡ none) (nothing : u.ue_ctx 0 ≡ none) where
  answered :
      (v : Upf) × (answer u (setup 0 dl)
        ≡ ok (v, record { items = flag true ∷ word 1 ∷ []; msg_type = 4; teid = 0 }))
      × (v.s1_id ≡ put u.s1_id 1 0)
  unfolding answer ue new_ue
  answered =
      let imsi = imsi_of u 0 in
      let none_there : imsi ≡ 0 = ap (λ o. get_or o 0) nobody in
      let smf : (ue u imsi).s11_cteid_smf ≡ 0 =
        ap (λ i. (get_or (u.ue_ctx i) (new_ue u.junk)).s11_cteid_smf) none_there
        ∙ ap (λ o. (get_or o (new_ue u.junk)).s11_cteid_smf) nothing in
      let v : Upf = record u {
        s1_id = put u.s1_id (u32 ((ue u imsi).s11_cteid_smf + 1)) imsi;
        ue_ctx = put u.ue_ctx imsi (ue u imsi);
        ho_ue_ctx = put u.ho_ue_ctx (u32 imsi) (record (ho_ue u imsi) { s1_uteid_dl = dl });
      } in
      (
        v,
        ap
            (λ k.
              ok
                (v, record { items = flag true ∷ word (u32 (k + 1)) ∷ []; msg_type = 4; teid = k }))
            smf,
        ap (λ k. put u.s1_id (u32 (k + 1)) imsi) smf ∙ ap (put u.s1_id 1) none_there,
      )

  -- When an AMF with sound tables handles the acknowledgement of a handover, whichever UE it
  -- names, with a UPF that has no session under TEID 0 and no context of IMSI 0, then the source
  -- eNodeB is told the uplink TEID 1, and the UPF has entered IMSI 0 under it.
  pub setup_takes_first :
      (b : Amf) × (v : Upf) × (m : Packet) × (setup_indirect_tunnel (n4 src rx) a u q
        ≡ ok (b, v, to_source m ∷ []))
      × ((z : Packet)
          → parse_s1ap (map kind (word 1 ∷ [])) (deliver m z) ≡ ok (8, enodeb, mme, word 1 ∷ []))
      × (v.s1_id ≡ put u.s1_id 1 0)
  unfolding setup_indirect_tunnel extract_u32 byte_range le_bytes
  setup_takes_first =
      let guti = guti_of a q in
      let c = local a guti in
      let blank : c.s11_cteid_upf ≡ 0 = (local-NoTunnel a guti h).0 in
      let (p1, e1, _, k1) = num_Reads q 4 dl [] low here.reads in
      let g1 : GtpInRange p1.gtp_hdr = subst GtpInRange (sym k1) g in
      let (m, _, em, _, _) =
        gtp_arrives p1 (word dl ∷ []) 4 0 g1 (low, tt) (omega arith) (omega arith) (omega arith)
          rx in
      let (w, f, gw) =
        request_served u src (setup 0 dl) p1 rx g1 (low, tt) (omega arith) (omega arith) in
      let (v, ea, table) = answered in
      let (r, p2, er, ex, back) =
        gtp_arrives w (flag true ∷ word 1 ∷ []) 4 0 gw (tt, (omega arith, tt)) (omega arith)
          (omega arith) (omega arith) m in
      let served : handle_s11 u src (deliver m rx) ≡ ok (v, (src, r) ∷ []) =
        sym (bind_ok (λ x. handle_s11 u src (deliver x rx)) em refl)
        ∙ f
        ∙ bind_ok _ ea (bind_ok _ er refl) in
      let (p3, e3, r3, _) = flag_Reads p2 true _ back.reads in
      let (p4, e4, _, _) = num_Reads p3 4 1 [] (omega arith) r3 in
      let kept : p4.s1ap_hdr ≡ q.s1ap_hdr =
        extract_num-s1ap_hdr 4 p3 1 p4 e4
        ∙ extract_bool-s1ap_hdr p2 p3 e3
        ∙ deliver-s1ap_hdr r m p2 ex
        ∙ build_gtp-s1ap_hdr (word dl ∷ []) 4 0 p1 m em
        ∙ extract_num-s1ap_hdr 4 q dl p1 e1 in
      let g4 : S1apInRange p4.s1ap_hdr = subst S1apInRange (sym kept) here.in_range in
      let (ge, gm) : (enodeb < 2 ^ 32) × (mme < 2 ^ 32) = (
        omega (arith, here.is_enodeb, here.in_range.enodeb_s1ap_ue_id),
        omega (arith, here.is_mme, here.in_range.mme_s1ap_ue_id),
      ) in
      let (t, _, et, _, _, _) =
        s1ap_arrives p4 (word 1 ∷ []) 8 enodeb mme g4 (omega arith, tt) (omega arith) ge gm
          (omega arith) rx in
      let sent : ℕ → ℕ → Result (Amf × Upf × List Sent) = λ e k.
        build_s1ap (word 1 ∷ []) 8 e k p4 >>= λ y. ok (set_local a guti c, v, to_source y ∷ []) in
      (
        set_local a guti c,
        v,
        t,
        bind_ok _ e1 (
            bind_ok _ (ap (λ k. build_gtp (word dl ∷ []) 2 4 k p1) blank ∙ em) (
              bind_ok _ (bind_ok _ served refl) (
                bind_ok _ ex (
                  bind_ok _ e3 (
                    bind_ok _ e4 (
                      ap (λ k. sent k q.s1ap_hdr.mme_s1ap_ue_id) here.is_enodeb
                      ∙ ap (sent enodeb) here.is_mme
                      ∙ bind_ok _ et refl)))))),
        (λ z.
            sym (bind_ok (λ x. parse_s1ap (map kind (word 1 ∷ [])) (deliver x z)) et refl)
            ∙ s1ap_round_trip p4 (word 1 ∷ []) 8 enodeb mme g4 (omega arith, tt) (omega arith) ge gm
                (omega arith) z),
        table,
      )
