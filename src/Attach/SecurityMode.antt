-- ===== src/Attach/SecurityMode.antt =====
-- The security mode of an attach, step by step: the command in src/amf.cpp, the UE's answer in
-- src/ran.cpp, the AMF's judgement of it.
use g_core_rest_sba.Base.{
  ℕ, ◌+◌, ◌^◌, ◌<◌, ◌≡◌, ◌≢◌, refl, sym, ap, ◌∙◌, subst, ◌==◌, true, false, not, some, List, [],
  ◌∷◌, arith, unless,
}
use g_core_rest_sba.Base.Words.{u16}
use g_core_rest_sba.Base.Stop.{Result, ok, zero_guti, hmac_failure, ◌>>=◌, bind_ok, pass}
use g_core_rest_sba.Packet.Codec.{le_bytes, byte_range}
use g_core_rest_sba.Packet.Header.{S1apInRange}
use g_core_rest_sba.Packet.Buffer.{Packet, extract_s1ap_hdr, extract_u16, extract_u64}
use g_core_rest_sba.Packet.Items.{Item, flag, half, long, AllInRange, images}
use g_core_rest_sba.Net.Stream.{is_closed}
use g_core_rest_sba.Json.{Json}
use g_core_rest_sba.Udm.State.{UeContext, Udm, ctx, set_ctx}
use g_core_rest_sba.Udm.Handlers.{
  nas_keys, ue_ctx_request_security_mode_cmd, ue_ctx_request_handle_security_mode_complete,
}
use g_core_rest_sba.Udm.Server.{callback}
use g_core_rest_sba.Udm.Client.{asked, ctx-set_ctx}
use g_core_rest_sba.Amf.State.{Amf, guti_of}
use g_core_rest_sba.Amf.Security.{handle_security_mode_cmd, handle_security_mode_complete}
use g_core_rest_sba.Ran.Context as Ran
use g_core_rest_sba.Ran.Session.{set_security}
use g_core_rest_sba.Security.Openssl.{Openssl}
use g_core_rest_sba.Security.Crypt.{integrity_key, build_sealed}
use g_core_rest_sba.Security.Seal.{
  Message, built_sealed, built_nas, cipher, mac, rem_hmac-Left, get_hmac_lem, cmp_hmacs_refl,
}
use g_core_rest_sba.Security.Filled.{filled, filled-Reads, filled-Holds}
use g_core_rest_sba.Security.Arrival.{Delivered, opens, flag_lem, num_lem}
use g_core_rest_sba.Attach.Network.{core, as_uint_lem}
use g_core_rest_sba.Attach.NasKeys.{crypt, integrity, keys_set}

-- What the AMF tells the UE.
abbrev pub command_items : UeContext → List Item
command_items c =
    long c.ksi_asme ∷ half c.nw_capability ∷ long c.nas_enc_algo ∷ long c.nas_int_algo ∷ []

module _ (J : Json) where
  abbrev command : UeContext → J.Value
  command c =
      let r1 = J.set_num J.null "ksi_asme" c.ksi_asme in
      let r2 = J.set_num r1 "nw_capability" c.nw_capability in
      let r3 = J.set_num r2 "nas_enc_algo" c.nas_enc_algo in
      let r4 = J.set_num r3 "nas_int_algo" c.nas_int_algo in
      let r5 = J.set_num r4 "k_nas_enc" c.k_nas_enc in J.set_num r5 "k_nas_int" c.k_nas_int

  command_lem :
      (c : UeContext)
      → (J.num (command c) "ksi_asme" ≡ c.ksi_asme)
        × (J.num (command c) "nw_capability" ≡ c.nw_capability)
        × (J.num (command c) "nas_enc_algo" ≡ c.nas_enc_algo)
        × (J.num (command c) "nas_int_algo" ≡ c.nas_int_algo)
        × (J.num (command c) "k_nas_int" ≡ c.k_nas_int)
  command_lem c = (
    simp J.num_set_num,
    simp J.num_set_num,
    simp J.num_set_num,
    simp J.num_set_num,
    simp J.num_set_num,
  )

  commands :
      (u : Udm) (guti : ℕ)
      → callback J "/Nudm_UECM/UECtx/SetSecurityCmd" u (J.set_num J.null "guti" guti)
        ≡ ok (set_ctx u guti (ctx u guti), some (200, J.write (command (ctx u guti))))
  unfolding callback ue_ctx_request_security_mode_cmd
  commands u guti =
      ap (λ g. ok (set_ctx u g (ctx u g), some (200, J.write (command (ctx u g)))))
        (J.num_set_num J.null "guti" guti "guti")

  recalls_keys :
      (u : Udm) (guti : ℕ)
      → callback J "/Nudm_UECM/UECtx/HandleSecurityMode" u (J.set_num J.null "guti" guti)
        ≡ ok (set_ctx u guti (ctx u guti), some (200, J.write (nas_keys J (ctx u guti))))
  unfolding callback ue_ctx_request_handle_security_mode_complete
  recalls_keys u guti =
      ap (λ g. ok (set_ctx u g (ctx u g), some (200, J.write (nas_keys J (ctx u g)))))
        (J.num_set_num J.null "guti" guti "guti")

  module _ (O : Openssl) where
    -- The AMF's command, sent in the packet that it received.
    pub cmd_lem :
        (a : Amf) (u : Udm) (q : Packet)
        → guti_of a q ≢ 0
        → S1apInRange q.s1ap_hdr
        → (ctx u (guti_of a q)).ksi_asme < 2 ^ 64
        → (ctx u (guti_of a q)).nw_capability < 2 ^ 16
        → (b : Amf) × (v : Udm) × (m : Packet) × (handle_security_mode_cmd J O (core J) a u q
            ≡ ok (b, v, m ∷ []))
          × Message O m
              (images (command_items (integrity (crypt (ctx u (guti_of a q))))))
              2
              q.s1ap_hdr.enodeb_s1ap_ue_id
              q.s1ap_hdr.mme_s1ap_ue_id
          × (ctx v (guti_of a q) ≡ integrity (crypt (ctx u (guti_of a q))))
          × (b.s1amf_id ≡ a.s1amf_id)
    unfolding handle_security_mode_cmd le_bytes
    cmd_lem a u q known g ksi capability =
        let guti = guti_of a q in
        let enodeb = q.s1ap_hdr.enodeb_s1ap_ue_id in
        let mme = q.s1ap_hdr.mme_s1ap_ue_id in
        let nonzero : (guti == 0) ≡ false = ground arith in
        let (v, w, b, t, s, after, table) = keys_set J u a guti in
        let d : UeContext = ctx w guti in
        let (ek, ec, ee, ei, en) = command_lem d in
        let small : d.nw_capability < 2 ^ 16 =
          subst (λ c. c.nw_capability < 2 ^ 16) (sym after) capability in
        let clean : AllInRange (command_items d) =
          subst (λ c. AllInRange (command_items c)) (sym after)
            (ksi, (capability, (omega arith, (omega arith, tt)))) in
        let (m, e, msg) =
          built_sealed O q (command_items d) 2 enodeb mme g clean (omega arith) g.enodeb_s1ap_ue_id
            g.mme_s1ap_ue_id (omega arith) d.k_nas_int in
        let x = set_ctx w guti d in
        let sent : ℕ → ℕ → ℕ → ℕ → ℕ → Result (Amf × Udm × List Packet) =
          λ ks cap en_algo in_algo key.
            build_sealed O (long ks ∷ half cap ∷ long en_algo ∷ long in_algo ∷ []) 2 enodeb mme key
              q
            >>= λ m. ok (b, x, m ∷ []) in
        let same =
          ap
            (λ n.
              sent n (u16 d.nw_capability) (J.num (command d) "nas_enc_algo")
                (J.num (command d) "nas_int_algo") (J.num (command d) "k_nas_int"))
            ek
          ∙ ap
              (λ n.
                sent d.ksi_asme n (J.num (command d) "nas_enc_algo")
                  (J.num (command d) "nas_int_algo") (J.num (command d) "k_nas_int"))
              {y = d.nw_capability} (omega arith)
          ∙ ap
              (λ n.
                sent d.ksi_asme d.nw_capability n (J.num (command d) "nas_int_algo")
                  (J.num (command d) "k_nas_int"))
              ee
          ∙ ap
              (λ n.
                sent d.ksi_asme d.nw_capability d.nas_enc_algo n (J.num (command d) "k_nas_int"))
              ei
          ∙ ap (sent d.ksi_asme d.nw_capability d.nas_enc_algo d.nas_int_algo) en in
        (
          b,
          x,
          m,
          pass zero_guti nonzero (
              bind_ok _ t (
                bind_ok _ s (
                  bind_ok _
                    (asked J "/Nudm_UECM/UECtx/SetSecurityCmd" w x _ J.null (command d)
                      (commands w guti))
                    (bind_ok _
                      (as_uint_lem J (command d) "nw_capability" d.nw_capability ec (omega arith))
                      (same ∙ bind_ok _ e refl))))),
          subst (λ c. Message O m (images (command_items c)) 2 enodeb mme) after msg,
          ctx-set_ctx w guti d ∙ after,
          table,
        )

    -- What the UE's context is after a command.
    abbrev pub secured : Ran.RanContext → UeContext → Ran.RanContext
    secured c d = Ran.set_integrity_context (
        Ran.set_crypt_context (record c {
          ksi_asme = d.ksi_asme;
          nw_capability = d.nw_capability;
          nas_enc_algo = d.nas_enc_algo;
          nas_int_algo = d.nas_int_algo;
        }))

    -- The UE accepts a command, whatever key it derives, and answers.
    pub set_security_lem :
        (c : Ran.RanContext) (d : UeContext) (received q : Packet) (enodeb mme : ℕ)
        → is_closed received.len ≡ false
        → extract_s1ap_hdr received ≡ ok q
        → Delivered O q (images (command_items d)) 2 enodeb mme
        → AllInRange (command_items d)
        → c.enodeb_s1ap_ue_id < 2 ^ 32
        → c.mme_s1ap_ue_id < 2 ^ 32
        → (m : Packet) × (set_security O c received ≡ ok (secured c d, true, m ∷ []))
          × Message O m (cipher O (images (flag true ∷ []))) 3 c.enodeb_s1ap_ue_id c.mme_s1ap_ue_id
    unfolding set_security extract_u16 extract_u64 byte_range le_bytes Ran.set_crypt_context
        Ran.set_integrity_context
    set_security_lem c d received q enodeb mme some_bytes e here clean ge gm =
        let is = command_items d in
        let p0 : Packet = filled q (images is) in
        let removed =
          rem_hmac-Left O q (mac O (images is)) (images is)
            (sym (O.length-hmac_sha1 integrity_key (images is))) here.left in
        let (e1, r1) =
          num_lem p0 8 d.ksi_asme _ clean.0 (filled-Reads q (images is) (omega arith)) in
        let (e2, r2) = num_lem _ 2 d.nw_capability _ clean.1.0 r1 in
        let (e3, r3) = num_lem _ 8 d.nas_enc_algo _ clean.1.1.0 r2 in
        let (e4, r4) = num_lem _ 8 d.nas_int_algo _ clean.1.1.1.0 r3 in
        let last : Packet = record p0 { data_ptr = 0 + 8 + 2 + 8 + 8 } in
        let c' = secured c d in
        let (m, f, msg) =
          built_nas O last (flag true ∷ []) 3 c.enodeb_s1ap_ue_id c.mme_s1ap_ue_id here.in_range
            (tt, tt) (omega arith) ge gm (omega arith) c'.k_nas_enc c'.k_nas_int in
        (
          m,
          unless (ok (c, false, [])) some_bytes (
              bind_ok _ e (
                bind_ok _ removed (
                  bind_ok _ e1 (
                    bind_ok _ e2 (
                      bind_ok _ e3 (
                        bind_ok _ e4 (
                          bind_ok _
                            (get_hmac_lem O last c'.k_nas_int (images is)
                              (record {
                                counted = refl;
                                holds = (filled-Holds q (images is)).holds;
                              })
                              (omega arith))
                            (pass hmac_failure (ap not (cmp_hmacs_refl (mac O (images is))))
                              (bind_ok _ f refl))))))))),
          msg,
        )

    -- The AMF accepts the answer.
    pub complete_lem :
        (a : Amf) (u : Udm) (q : Packet) (enodeb mme : ℕ)
        → guti_of a q ≢ 0
        → Delivered O q (cipher O (images (flag true ∷ []))) 3 enodeb mme
        → handle_security_mode_complete J O (core J) a u q
          ≡ ok (set_ctx u (guti_of a q) (ctx u (guti_of a q)), true)
    unfolding handle_security_mode_complete
    complete_lem a u q enodeb mme known here =
        let guti = guti_of a q in
        let v = nas_keys J (ctx u guti) in
        let nonzero : (guti == 0) ≡ false = ground arith in
        let (checked, deciphered, reads) =
          opens O q (flag true ∷ []) 3 enodeb mme (J.num v "k_nas_enc") (J.num v "k_nas_int") here
            (omega arith) in
        let (read, _) = flag_lem (filled q (images (flag true ∷ []))) true [] reads in
        pass zero_guti nonzero (
          bind_ok _
            (asked J "/Nudm_UECM/UECtx/HandleSecurityMode" u _ _ J.null v (recalls_keys u guti))
            (bind_ok _ checked (bind_ok _ deciphered (bind_ok _ read refl))))
