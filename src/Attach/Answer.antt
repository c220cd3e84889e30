-- ===== src/Attach/Answer.antt =====
-- The UE's answer to the challenge, and the AMF's judgement of it.

use g_core_rest_sba.Base.{
  ℕ, ◌^◌, ◌<◌, ◌≡◌, ◌≢◌, refl, sym, ap, ◌∙◌, subst, ◌==◌, Bool, true, false, some, List, [], ◌∷◌,
  arith, if◌then◌else◌, unless, when,
}
use g_core_rest_sba.Base.Map.{get_or}
use g_core_rest_sba.Base.Stop.{Result, ok, zero_guti, ◌>>=◌, bind_ok, pass}
use g_core_rest_sba.Packet.Codec.{byte_range}
use g_core_rest_sba.Packet.Header.{S1apInRange}
use g_core_rest_sba.Packet.Buffer.{Packet, extract_u64, extract_s1ap_hdr}
use g_core_rest_sba.Net.Stream.{is_closed}
use g_core_rest_sba.Packet.Items.{long, AllInRange, num_Reads, extract_num-s1ap_hdr}
use g_core_rest_sba.Packet.Message.{build_s1ap, ArrivedS1}
use g_core_rest_sba.Json.{Json}
use g_core_rest_sba.Udm.State.{Udm, ctx, set_ctx}
use g_core_rest_sba.Udm.Client.{asked}
use g_core_rest_sba.Amf.State.{Amf, guti_of}
use g_core_rest_sba.Amf.Attach.{handle_autn}
use g_core_rest_sba.Ran.Context.{RanContext, authenticate}
use g_core_rest_sba.Attach.Vectors.{xres_of, autn_of, k_asme_of}
use g_core_rest_sba.Attach.Network.{core, recalls}

-- What the UE makes of a challenge: a refusal, or its response and a key of its own.
abbrev pub verdict : RanContext → ℕ → ℕ → ℕ → ℕ → Packet → Result (RanContext × Bool × List Packet)
verdict c autn rand_num ksi mme w =
    let c' : RanContext = record c { mme_s1ap_ue_id = mme; ksi_asme = ksi } in
    if autn_of c.key rand_num == autn
    then (do
      m ← build_s1ap (long (xres_of c.key rand_num) ∷ []) 2 c.enodeb_s1ap_ue_id mme w
      ok (record c' { k_asme = k_asme_of c.key rand_num c.plmn_id }, true, m ∷ []))
    else ok (c', false, [])

pub authenticate_lem :
    (c : RanContext) (received q : Packet) (autn rand_num ksi enodeb mme : ℕ)
    → is_closed received.len ≡ false
    → extract_s1ap_hdr received ≡ ok q
    → ArrivedS1 q 1 enodeb mme (long autn ∷ long rand_num ∷ long ksi ∷ [])
    → AllInRange (long autn ∷ long rand_num ∷ long ksi ∷ [])
    → (w : Packet) × (authenticate c received ≡ verdict c autn rand_num ksi mme w)
      × S1apInRange w.s1ap_hdr
unfolding authenticate extract_u64 byte_range
authenticate_lem c received q autn rand_num ksi enodeb mme some_bytes e arrived clean =
    let (p1, e1, r1, _) = num_Reads q 8 autn _ clean.0 arrived.reads in
    let (p2, e2, r2, _) = num_Reads p1 8 rand_num _ clean.1.0 r1 in
    let (p3, e3, r3, _) = num_Reads p2 8 ksi _ clean.1.1.0 r2 in
    let kept : p3.s1ap_hdr ≡ q.s1ap_hdr =
      extract_num-s1ap_hdr 8 p2 ksi p3 e3
      ∙ extract_num-s1ap_hdr 8 p1 rand_num p2 e2
      ∙ extract_num-s1ap_hdr 8 q autn p1 e1 in
    (
      p3,
      unless (ok (c, false, [])) some_bytes (
          bind_ok _ e (
            bind_ok _ e1 (
              bind_ok _ e2
                (bind_ok _ e3 (ap (λ i. verdict c autn rand_num ksi i p3) arrived.is_mme))))),
      subst S1apInRange (sym kept) arrived.in_range,
    )

-- The response that the UDM keeps is accepted.
pub handle_autn_lem :
    (J : Json) (a : Amf) (u : Udm) (q : Packet) (guti res enodeb mme : ℕ)
    → ArrivedS1 q 2 enodeb mme (long res ∷ [])
    → res < 2 ^ 64
    → a.s1amf_id mme ≡ some guti
    → guti ≢ 0
    → (ctx u guti).xres ≡ res
    → handle_autn J (core J) a u q ≡ ok (a, set_ctx u guti (ctx u guti), true)
unfolding handle_autn guti_of extract_u64 byte_range
handle_autn_lem J a u q guti res enodeb mme arrived small entry known same =
    let (p1, e1, r1, _) = num_Reads q 8 res _ small arrived.reads in
    let found : guti_of a q ≡ guti =
      ap (λ i. get_or (a.s1amf_id i) 0) arrived.is_mme ∙ ap (λ o. get_or o 0) entry in
    let nonzero : (guti_of a q == 0) ≡ false = ground arith in
    let v = J.set_num J.null "guti" (guti_of a q) in
    let reply = J.set_num J.null "xres" (ctx u guti).xres in
    let told_xres : J.num reply "xres" ≡ res = J.num_set_num J.null "xres" _ "xres" ∙ same in
    let accepted : (res == J.num reply "xres") ≡ true = ground arith in
    pass zero_guti nonzero (
      bind_ok _ e1 (
        bind_ok _
          (asked J "/Nudm_UECM/UECtx/SetAuth" u (set_ctx u guti (ctx u guti)) v J.null reply
            (recalls J u v guti (J.num_set_num J.null "guti" _ "guti" ∙ found)))
          (when _ accepted refl)))
