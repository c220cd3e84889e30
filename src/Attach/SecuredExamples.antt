-- ===== src/Attach/SecuredExamples.antt =====
-- The security mode of simulated UE number 3, once it is authenticated, at concrete inputs.
use g_core_rest_sba.Base.{
  ℕ, codes, ◌≡◌, refl, sym, ◌∙◌, none, if◌then◌else◌, ap, inl, inr, subst, some, ◌==◌, Bool-cases,
  true, arith,
}
use g_core_rest_sba.Base.Map.{put, empty, get_or}
use g_core_rest_sba.Base.Stop.{ok}
use g_core_rest_sba.Packet.Header.{S1apInRange}
use g_core_rest_sba.Packet.Buffer.{Packet}
use g_core_rest_sba.Packet.Examples.{blank}
use g_core_rest_sba.Telecom.Identity.{ids}
use g_core_rest_sba.Json.Examples.{objects}
use g_core_rest_sba.Udm.State.{UeContext, Udm, new_udm, new_ctx, ctx}
use g_core_rest_sba.Udm.Keys.{Counters, Fresh}
use g_core_rest_sba.Amf.State.{Amf, new_amf, guti_of}
use g_core_rest_sba.Ran.Context.{RanContext}
use g_core_rest_sba.Security.Examples.{padding}
use g_core_rest_sba.Attach.Examples.{phone, database}
use g_core_rest_sba.Attach.Secured.{secure, secure_accepts, secure_agrees}

abbrev guti : ℕ
guti = 1111119000000003

abbrev amf_of_phone : Amf
unfolding new_amf
amf_of_phone = record (new_amf ids (codes "10.0.0.2") (codes "10.0.0.3") 9) {
  s1amf_id = put empty 1 guti;
}

-- What the UDM and the UE have after the authentication.
abbrev stored : ℕ → UeContext
unfolding new_ctx
stored k_asme = record (new_ctx 9) { k_asme = k_asme; ksi_asme = 1; nw_capability = 1 }

abbrev udm_of_phone : ℕ → Udm
unfolding new_udm
udm_of_phone k_asme = record (new_udm (database 3) empty 9) {
  ue_ctx = put empty guti (stored k_asme);
}

abbrev phone_known : RanContext
phone_known = record phone { mme_s1ap_ue_id = 1; k_asme = 500 }

-- The response of the UE, its header extracted.
abbrev response : Packet
response = record blank { s1ap_hdr = record (blank.s1ap_hdr) { mme_s1ap_ue_id = 1 } }

response-S1apInRange : S1apInRange response.s1ap_hdr
response-S1apInRange = ground arith

some-injective : (c d : UeContext) → some c ≡ some d → c ≡ d
some-injective c d e = ap (λ o. get_or o c) e

stored-Counters : Counters (udm_of_phone 500)
unfolding udm_of_phone stored new_udm new_ctx
stored-Counters g c e = elim (Bool-cases (guti == g)) [
  | inl same ↦
      let now : some (stored 500) ≡ some c =
        ap (λ b. if b then some (stored 500) else none) (sym same) ∙ e in
      subst Fresh (some-injective (stored 500) c now) (refl, refl, refl)
  | inr other ↦ cc
]

secure_accepts_example :
    (c' : RanContext) × (b : Amf) × (v : Udm) × (secure objects padding blank phone_known
        amf_of_phone
        (udm_of_phone 501)
        response
        blank
      ≡ ok (c', b, v, true))
unfolding guti_of ctx amf_of_phone udm_of_phone stored new_amf new_udm new_ctx
secure_accepts_example =
    secure_accepts objects padding blank phone_known amf_of_phone (udm_of_phone 501) response blank
      (omega arith) response-S1apInRange (omega arith) (omega arith) (omega arith) refl

secure_agrees_example :
    (c' : RanContext) × (b : Amf) × (v : Udm) × (secure objects padding blank phone_known
        amf_of_phone
        (udm_of_phone 500)
        response
        blank
      ≡ ok (c', b, v, true))
    × ((ctx v guti).k_nas_enc ≡ c'.k_nas_enc)
    × ((ctx v guti).k_nas_int ≡ c'.k_nas_int)
    × ((ctx v guti).ksi_asme ≡ c'.ksi_asme)
    × ((ctx v guti).nw_capability ≡ c'.nw_capability)
unfolding guti_of ctx amf_of_phone udm_of_phone stored new_amf new_udm new_ctx
secure_agrees_example =
    secure_agrees objects padding blank phone_known amf_of_phone (udm_of_phone 500) response blank
      (omega arith) response-S1apInRange (omega arith) (omega arith) (omega arith) refl
      stored-Counters refl refl refl refl
