-- ===== src/Attach/Judgement.antt =====
-- What `handle_ue` of src/amf_server.cpp makes of the two messages of the authentication.
use g_core_rest_sba.Base.{
  ℕ, ◌^◌, ◌<◌, ◌≡◌, Bytes, ◌≢◌, refl, sym, ap, ◌∙◌, subst, ◌==◌, true, false, some, [], ◌∷◌, arith,
  unless, when, map,
}
use g_core_rest_sba.Base.Map.{get_or}
use g_core_rest_sba.Base.Stop.{ok, ◌>>=◌, bind_ok}
use g_core_rest_sba.Packet.Buffer.{Packet, copy}
use g_core_rest_sba.Packet.Items.{long, images}
use g_core_rest_sba.Packet.Copies.{copied}
use g_core_rest_sba.Packet.Message.{ArrivedS1}
use g_core_rest_sba.Json.{Json}
use g_core_rest_sba.Udm.State.{Udm, ctx, set_ctx}
use g_core_rest_sba.Udm.Client.{ctx-set_ctx}
use g_core_rest_sba.Amf.State.{Amf, to_ue, guti_of}
use g_core_rest_sba.Amf.Server.{authenticated, known_ue, turn}
use g_core_rest_sba.Amf.Security.{handle_security_mode_cmd}
use g_core_rest_sba.Net.Udp.{N4}
use g_core_rest_sba.Rest.{Routes}
use g_core_rest_sba.Security.Openssl.{Openssl}
use g_core_rest_sba.Security.Seal.{Message}
use g_core_rest_sba.Attach.NasKeys.{crypt, integrity}
use g_core_rest_sba.Attach.SecurityMode.{command_items, cmd_lem}
use g_core_rest_sba.Amf.Attach.{handle_initial_attach, handle_autn}
use g_core_rest_sba.Attach.Network.{core}
use g_core_rest_sba.Attach.Answer.{handle_autn_lem}

-- A message, by equal contents and numbers.
told_as :
    {O : Openssl} {A : Type 0} (contents : A → Bytes) (m : Packet) {x y : A} {e e' n n' : ℕ}
    → x ≡ y
    → e ≡ e'
    → n ≡ n'
    → Message O m (contents x) 2 e n
    → Message O m (contents y) 2 e' n'
told_as {O} contents m {x} {y} {e} {e'} {n} {n'} same_x same_e same_n msg =
    subst (λ k. Message O m (contents y) 2 e' k) same_n
      (subst (λ k. Message O m (contents y) 2 k n) same_e
        (subst (λ z. Message O m (contents z) 2 e n) same_x msg))

-- The switches of `handle_ue` on an attach request and on a response to a challenge.
module _ (J : Json) (O : Openssl) (smf : Routes Udm J.Text) (upf : N4 Udm) where
  pub new_ue_lem :
      (a : Amf) (u : Udm) (q0 q : Packet)
      → q0.s1ap_hdr.mme_s1ap_ue_id ≡ 0
      → q0.s1ap_hdr.msg_type ≡ 1
      → copy q0 ≡ ok q
      → turn J O (core J) smf upf a u q0
        ≡ (handle_initial_attach J (core J) a u q >>= λ x. ok (x.0, x.1, map to_ue x.2))
  unfolding turn
  new_ue_lem a u q0 q no_number is_request k =
      let new_ue : (q0.s1ap_hdr.mme_s1ap_ue_id == 0) ≡ true = ground arith in
      let request : (q0.s1ap_hdr.msg_type == 1) ≡ true = ground arith in
      when _ new_ue (when _ request (bind_ok _ k refl))

  response_lem :
      (a b : Amf) (u v w : Udm) (q0 q m : Packet)
      → q0.s1ap_hdr.mme_s1ap_ue_id ≢ 0
      → q0.s1ap_hdr.msg_type ≡ 2
      → copy q0 ≡ ok q
      → handle_autn J (core J) a u q ≡ ok (a, v, true)
      → handle_security_mode_cmd J O (core J) a v q ≡ ok (b, w, m ∷ [])
      → turn J O (core J) smf upf a u q0 ≡ ok (b, w, to_ue m ∷ [])
  unfolding turn known_ue authenticated
  response_lem a b u v w q0 q m numbered is_response k judged commanded =
      let old_ue : (q0.s1ap_hdr.mme_s1ap_ue_id == 0) ≡ false = ground arith in
      unless _ old_ue (
        ap (λ t. known_ue J O (core J) smf upf t a u q0) is_response
        ∙ bind_ok _ k (bind_ok _ judged (bind_ok _ k (bind_ok _ commanded refl))))

  -- The right response is answered with the command for the security mode.
  pub accepts :
      (b : Amf) (v : Udm) (q0 : Packet) (guti res enodeb mme : ℕ)
      → ArrivedS1 q0 2 enodeb mme (long res ∷ [])
      → res < 2 ^ 64
      → mme ≢ 0
      → b.s1amf_id mme ≡ some guti
      → guti ≢ 0
      → (ctx v guti).xres ≡ res
      → (ctx v guti).ksi_asme < 2 ^ 64
      → (ctx v guti).nw_capability < 2 ^ 16
      → (b2 : Amf) × (w : Udm) × (m : Packet) × (turn J O (core J) smf upf b v q0
          ≡ ok (b2, w, to_ue m ∷ []))
        × Message O m (images (command_items (ctx w guti))) 2 enodeb mme
        × (b2.s1amf_id ≡ b.s1amf_id)
        × ((ctx w guti).k_asme ≡ (ctx v guti).k_asme)
  unfolding guti_of
  accepts b v q0 guti res enodeb mme here0 small numbered entry known same ksi capability =
      let (q, k, here) = copied q0 2 enodeb mme _ here0 in
      let judged = handle_autn_lem J b v q guti res enodeb mme here small entry known same in
      let v2 = set_ctx v guti (ctx v guti) in
      let found : guti_of b q ≡ guti =
        ap (λ i. get_or (b.s1amf_id i) 0) here.is_mme ∙ ap (λ o. get_or o 0) entry in
      let at2 : ctx v2 (guti_of b q) ≡ ctx v guti =
        ap (ctx v2) found ∙ ctx-set_ctx v guti (ctx v guti) in
      let (b2, w, m, commanded, msg, after, table) =
        cmd_lem J O b v2 q (subst (λ n. n ≢ 0) (sym found) known) here.in_range
          (omega (arith, ap (λ d. d.ksi_asme) at2, ksi))
          (omega (arith, ap (λ d. d.nw_capability) at2, capability)) in
      let ends : ctx w guti ≡ integrity (crypt (ctx v2 (guti_of b q))) =
        ap (ctx w) (sym found) ∙ after in
      let not_new : q0.s1ap_hdr.mme_s1ap_ue_id ≢ 0 =
        λ zero. absurd (omega (arith, zero, here0.is_mme, numbered)) in
      (
        b2,
        w,
        m,
        response_lem b b2 v v2 w q0 q m not_new here0.is_type k judged commanded,
        told_as (λ d. images (command_items d)) m (sym ends) here.is_enodeb here.is_mme msg,
        table,
        ap (λ d. d.k_asme) ends ∙ ap (λ d. d.k_asme) at2,
      )
