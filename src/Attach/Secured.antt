-- ===== src/Attach/Secured.antt =====
-- The security mode of an attach from end to end.
use g_core_rest_sba.Base.{
  ◌^◌, ◌<◌, ◌≡◌, ◌≢◌, refl, sym, ap, ◌∙◌, subst, Bool, true, false, List, [], ◌∷◌, arith,
}
use g_core_rest_sba.Base.Words.{u64}
use g_core_rest_sba.Base.Map.{get_or}
use g_core_rest_sba.Base.Stop.{Result, ok, ◌>>=◌, bind_ok}
use g_core_rest_sba.Packet.Codec.{le_bytes}
use g_core_rest_sba.Packet.Header.{S1apInRange}
use g_core_rest_sba.Packet.Buffer.{Packet, copy, deliver, extract_s1ap_hdr}
use g_core_rest_sba.Packet.Items.{flag, images}
use g_core_rest_sba.Json.{Json}
use g_core_rest_sba.Udm.State.{Udm, ctx, set_ctx}
use g_core_rest_sba.Udm.Client.{ctx-set_ctx}
use g_core_rest_sba.Udm.Keys.{Counters, ctx-Fresh}
use g_core_rest_sba.Amf.State.{Amf, guti_of}
use g_core_rest_sba.Amf.Security.{handle_security_mode_cmd, handle_security_mode_complete}
use g_core_rest_sba.Ran.Context as Ran
use g_core_rest_sba.Ran.Session.{set_security}
use g_core_rest_sba.Security.Openssl.{Openssl}
use g_core_rest_sba.Security.Crypt.{crypt_key, crypt_iv}
use g_core_rest_sba.Security.Seal.{cipher}
use g_core_rest_sba.Security.Arrival.{arrives}
use g_core_rest_sba.Attach.Network.{core}
use g_core_rest_sba.Attach.NasKeys.{crypt, integrity}
use g_core_rest_sba.Attach.SecurityMode.{
  command_items, cmd_lem, secured, set_security_lem, complete_lem,
}

-- What `handle_ue` of src/amf_server.cpp does with a packet before it calls a handler.
abbrev receive : Packet → Packet → Result Packet
receive m rx = extract_s1ap_hdr (deliver m rx) >>= copy

-- The state of everybody after the run, and whether both sides accepted.
abbrev pub Outcome : Type 0
Outcome = Result (Ran.RanContext × Amf × Udm × Bool)

module _ (J : Json) (O : Openssl) (rx : Packet) where
  abbrev finish : Ran.RanContext → Amf → Udm → List Packet → Outcome
  finish c a u [] = ok (c, a, u, false)
  finish c a u (m ∷ ms) = do
    q ← receive m rx
    (u', res) ← handle_security_mode_complete J O (core J) a u q
    ok (c, a, u', res)

  abbrev answer : Ran.RanContext → Amf → Udm → Packet → List Packet → Outcome
  answer c a u p [] = ok (c, a, u, false)
  answer c a u p (m ∷ ms) = do
    (c', secure, replies) ← set_security O c (deliver m p)
    finish c' a u replies

  -- The AMF's command on the packet `q`, the UE's answer in its packet `p`, the AMF's judgement in its
  -- packet `rx`.
  abbrev pub secure : Ran.RanContext → Amf → Udm → Packet → Packet → Outcome
  secure c a u q p = do
    (b, v, sent) ← handle_security_mode_cmd J O (core J) a u q
    answer c b v p sent

  module _ (c : Ran.RanContext) (a : Amf) (u : Udm) (q p : Packet) (known : guti_of a q ≢ 0)
      (g : S1apInRange q.s1ap_hdr) (ksi : (ctx u (guti_of a q)).ksi_asme < 2 ^ 64)
      (capability : (ctx u (guti_of a q)).nw_capability < 2 ^ 16)
      (enodeb : c.enodeb_s1ap_ue_id < 2 ^ 32)
      (same_mme : c.mme_s1ap_ue_id ≡ q.s1ap_hdr.mme_s1ap_ue_id) where
    secure_lem :
        (b : Amf) × (v : Udm) × (secure c a u q p
          ≡ ok (secured J O c (integrity (crypt (ctx u (guti_of a q)))), b, v, true))
        × (ctx v (guti_of a q) ≡ integrity (crypt (ctx u (guti_of a q))))
    unfolding guti_of le_bytes
    secure_lem =
        let d = integrity (crypt (ctx u (guti_of a q))) in
        let (b, v, m, e, msg, after, table) = cmd_lem J O a u q known g ksi capability in
        let (r, er, here, some_bytes) =
          arrives O m p (images (command_items d)) 2 _ _ msg (omega arith) in
        let low : c.mme_s1ap_ue_id < 2 ^ 32 = omega (arith, g.mme_s1ap_ue_id) in
        let (w, ew, sent) =
          set_security_lem J O c d (deliver m p) r _ _ some_bytes er here
            (ksi, (capability, (omega arith, (omega arith, tt)))) enodeb low in
        let (t, et, there, _) =
          arrives O w rx (cipher O (images (flag true ∷ []))) 3 _ _ sent
            (omega (arith, O.length-encrypt crypt_key crypt_iv (images (flag true ∷ [])))) in
        let g2 : guti_of b t ≡ guti_of a q =
          ap (λ f. get_or (f t.s1ap_hdr.mme_s1ap_ue_id) 0) table
          ∙ ap (λ n. get_or (a.s1amf_id n) 0) (there.is_mme ∙ same_mme) in
        let known2 : guti_of b t ≢ 0 = subst (λ n. n ≢ 0) (sym g2) known in
        (
          b,
          set_ctx v (guti_of b t) (ctx v (guti_of b t)),
          bind_ok _ e (
              bind_ok _ ew (
                bind_ok _ (bind_ok _ et there.copies)
                  (bind_ok _ (complete_lem J O b v t _ _ known2 there) refl))),
          subst
              (λ n.
                ctx (set_ctx v n (ctx v n)) (guti_of a q) ≡ integrity (crypt (ctx u (guti_of a q))))
              (sym g2) (ctx-set_ctx v (guti_of a q) (ctx v (guti_of a q)) ∙ after),
        )

    -- The security mode is accepted on both sides whatever the key, counters and algorithms of the
    -- two are, for an AMF that knows the UE and a UE that has the same number, with values in
    -- range.
    pub secure_accepts :
        (c' : Ran.RanContext) × (b : Amf) × (v : Udm) × (secure c a u q p ≡ ok (c', b, v, true))
    secure_accepts = let (b, v, e, _) = secure_lem in (_, b, v, e)

    -- The security mode runs to the end between the AMF, the UDM and the UE, who accepts the
    -- command and whose answer the AMF accepts, for an AMF that knows the UE and a UE that has the
    -- same number in range: if the UDM has the UE's key, counters and the values of its
    -- constructor and the UE its initial counters, both sides then have the same two NAS keys, key
    -- set identifier and network capability.
    pub secure_agrees :
        Counters u
        → (ctx u (guti_of a q)).k_asme ≡ c.k_asme
        → c.count ≡ 1
        → c.bearer ≡ 0
        → c.dir ≡ 0
        → (c' : Ran.RanContext) × (b : Amf) × (v : Udm) × (secure c a u q p ≡ ok (c', b, v, true))
          × ((ctx v (guti_of a q)).k_nas_enc ≡ c'.k_nas_enc)
          × ((ctx v (guti_of a q)).k_nas_int ≡ c'.k_nas_int)
          × ((ctx v (guti_of a q)).ksi_asme ≡ c'.ksi_asme)
          × ((ctx v (guti_of a q)).nw_capability ≡ c'.nw_capability)
    unfolding Ran.set_crypt_context Ran.set_integrity_context
    secure_agrees h ek ec eb ed =
        let (b, v, e, after) = secure_lem in
        let (fc, fb, fd) = ctx-Fresh u (guti_of a q) h in
        (
          _,
          b,
          v,
          e,
          ap (λ x. x.k_nas_enc) after ∙ ap u64 (omega (arith, fc, fb, fd, ek, ec, eb, ed)),
          ap (λ x. x.k_nas_int) after ∙ ap u64 (omega (arith, fc, fb, fd, ek, ec, eb, ed)),
          ap (λ x. x.ksi_asme) after,
          ap (λ x. x.nw_capability) after,
        )
