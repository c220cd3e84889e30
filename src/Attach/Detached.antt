-- ===== src/Attach/Detached.antt =====
-- The detach from the UE's request to its judgement of the answer: `Ran::detach` of src/ran.cpp with
-- `handle_ue` of src/amf_server.cpp between its two halves.
use g_core_rest_sba.Base.{
  ℕ, ◌^◌, ◌<◌, ◌≡◌, ◌≢◌, refl, ap, ◌∙◌, Bool, true, false, some, List, [], ◌∷◌, arith, unless, ◌==◌,
}
use g_core_rest_sba.Base.Map.{get_or}
use g_core_rest_sba.Base.Stop.{Result, ok, ◌>>=◌, bind_ok}
use g_core_rest_sba.Json.{Json}
use g_core_rest_sba.Packet.Codec.{le_bytes}
use g_core_rest_sba.Packet.Header.{GtpInRange, S1apInRange}
use g_core_rest_sba.Packet.Buffer.{Packet, deliver}
use g_core_rest_sba.Packet.Items.{flag, images}
use g_core_rest_sba.Udm.State.{Udm, ctx}
use g_core_rest_sba.Upf.State.{UeContext}
use g_core_rest_sba.Upf.Handlers.{SockAddr}
use g_core_rest_sba.Upf.Sessions.{Linked}
use g_core_rest_sba.Upf.Changes.{without}
use g_core_rest_sba.Smf.Server.{Memory}
use g_core_rest_sba.Amf.State.{
  Amf, Sent, to_ue, to_source, to_target, guti_of, rem_local, rem_s1amf_id,
}
use g_core_rest_sba.Amf.Server.{known_ue, turn, handle_ue}
use g_core_rest_sba.Ran.Context.{RanContext}
use g_core_rest_sba.Ran.Session.{request_detach, detached}
use g_core_rest_sba.Security.Openssl.{Openssl}
use g_core_rest_sba.Security.Crypt.{crypt_key, crypt_iv}
use g_core_rest_sba.Security.Seal.{cipher}
use g_core_rest_sba.Security.Arrival.{arrives}
use g_core_rest_sba.Attach.Detach.{
  Core, detach_items, peers, n4_core, smf_routes, goes, asks_to_go, gone,
}

abbrev Outcome : Type 0
Outcome = Result (Amf × Core × Bool)

module _ (J : Json) (O : Openssl) (src : SockAddr) (n4_rx : Packet) (memory : Memory) where
  -- The UE reads, in its packet `back`, the first answer on its own connection.
  abbrev judged : RanContext → Packet → Amf → Core → List Sent → Outcome
  judged c back a s [] = ok (a, s, false)
  judged c back a s (to_source m ∷ ms) = judged c back a s ms
  judged c back a s (to_target m ∷ ms) = judged c back a s ms
  judged c back a s (to_ue m ∷ ms) = do res ← detached O c (deliver m back); ok (a, s, res)

  -- The UE's request in its packet `p`, received by the AMF in `rx`.
  abbrev pub depart : RanContext → Amf → Core → Packet → Packet → Packet → Outcome
  depart c a s p rx back = do
    m ← request_detach O c p
    (_, b, t, sent) ←
        handle_ue J O (peers J) (smf_routes J src n4_rx memory) (n4_core J src n4_rx) a s
          (deliver m rx)
    judged c back b t sent

  -- A detach of a UE whose number, not 0, the AMF has for a GUTI that is not 0 and has values in
  -- range at the UDM, and which names a GUTI, also not 0 and not necessarily that one, whose
  -- control TEID at the UDM is in use at a UPF with linked tables, runs to the end through the
  -- AMF, the UDM, the SMF and the UPF: the UE is told that it is detached, the AMF drops its
  -- number and the context of the GUTI that it named, the UPF the TEID, the address and the
  -- context of the subscriber of that GUTI, and the UDM keeps all contexts.
  pub detach_releases :
      (c : RanContext) (a : Amf) (s : Core) (p rx back : Packet) (sender imsi : ℕ)
      → GtpInRange memory.pkt.gtp_hdr
      → S1apInRange p.s1ap_hdr
      → c.guti < 2 ^ 64
      → c.guti ≢ 0
      → c.ksi_asme < 2 ^ 64
      → c.enodeb_s1ap_ue_id < 2 ^ 32
      → c.mme_s1ap_ue_id < 2 ^ 32
      → c.mme_s1ap_ue_id ≢ 0
      → get_or (a.s1amf_id c.mme_s1ap_ue_id) 0 ≡ sender
      → sender ≢ 0
      → (ctx s.1 sender).eps_bearer_id < 2 ^ 8
      → (ctx s.1 sender).s11_cteid_upf < 2 ^ 32
      → (ctx s.1 sender).tai < 2 ^ 64
      → Linked s.2
      → s.2.s11_id (ctx s.1 c.guti).s11_cteid_sgw ≡ some imsi
      → (session : UeContext) × (s.2.ue_ctx imsi ≡ some session)
        × (d : Udm) × ((n : ℕ) → ctx d n ≡ ctx s.1 n)
        × (depart c a s p rx back
            ≡ ok (
              rem_local (rem_s1amf_id a c.mme_s1ap_ue_id) c.guti,
              (s.0, d, without s.2 (ctx s.1 c.guti).s11_cteid_sgw imsi session.ip_addr),
              true,
            ))
  unfolding guti_of handle_ue turn known_ue le_bytes
  detach_releases c a s p rx back sender imsi g gp hg nonzero hk he hm numbered known is_known hb hs
        ht l h =
      let is = detach_items c.guti c.ksi_asme in
      let (m, e, msg) = asks_to_go O c p gp hg hk he hm in
      let (q, eq, here, some_bytes) =
        arrives O m rx (cipher O (images is)) 5 _ _ msg
          (omega (arith, O.length-encrypt crypt_key crypt_iv (images is))) in
      let known_q : guti_of a q ≡ sender = ap (λ n. get_or (a.s1amf_id n) 0) here.is_mme ∙ known in
      let (session, is_session, d, kept, w, ew, answer) =
        goes J O src n4_rx memory g a s.0 s.1 s.2 q sender c.guti c.ksi_asme _ _ imsi known_q
          is_known nonzero here hg hk hb hs ht l h in
      let (r, er, there, more) =
        arrives O w back (cipher O (images (flag true ∷ []))) 5 _ _ answer
          (omega (arith, O.length-encrypt crypt_key crypt_iv (images (flag true ∷ [])))) in
      let smf = smf_routes J src n4_rx memory in
      let net = peers J in
      let away : (c.mme_s1ap_ue_id == 0) ≡ false = ground arith in
      let nonzero_q : (q.s1ap_hdr.mme_s1ap_ue_id == 0) ≡ false =
        ap (λ n. n == 0) here.is_mme ∙ away in
      let left = without s.2 (ctx s.1 c.guti).s11_cteid_sgw imsi session.ip_addr in
      (
        session,
        is_session,
        d,
        kept,
        bind_ok _ e (
            bind_ok _
              (unless (ok (0, a, s, [])) some_bytes (
                bind_ok _ eq (
                  bind_ok _
                    (unless _ nonzero_q (
                      ap (λ t. known_ue J O net smf (n4_core J src n4_rx) t a s q) here.is_type
                      ∙ bind_ok _ here.copies (bind_ok _ ew refl)))
                    refl)))
              (bind_ok _ (gone O c (deliver w back) r _ _ more er there) (
                ap (λ n. ok (rem_local (rem_s1amf_id a n) c.guti, (s.0, d, left), true))
                  here.is_mme))),
      )
