-- ===== src/Attach/Vectors.antt =====
-- Authentication vectors: how the AUSF computes them from the UDM's key, and how a UE checks them.
use g_core_rest_sba.Base.{ℕ, ◌+◌, ◌^◌, ◌<◌, ◌≡◌, ap, ◌∙◌, some, arith}
use g_core_rest_sba.Base.Words.{u64}
use g_core_rest_sba.Base.Stop.{ok, bind_ok}
use g_core_rest_sba.Json.{Json}
use g_core_rest_sba.Rest.{send_and_receive}
use g_core_rest_sba.Udm.State.{Udm}
use g_core_rest_sba.Udm.Handlers.{get_autn_info, autn_reply}
use g_core_rest_sba.Udm.Server.{callback, handle, with_body}
use g_core_rest_sba.Udm.Client.{asked}
use g_core_rest_sba.Ausf

-- The response, the token and the key of a subscriber's key and a random number.
abbrev pub xres_of : ℕ → ℕ → ℕ
xres_of key rand_num = u64 (key + u64 (rand_num + 1) + rand_num)

abbrev pub autn_of : ℕ → ℕ → ℕ
autn_of key rand_num = u64 (xres_of key rand_num + 1)

abbrev pub k_asme_of : ℕ → ℕ → ℕ → ℕ
k_asme_of key rand_num plmn_id =
    let x = xres_of key rand_num in u64 (u64 (x + 2) + u64 (x + 3) + u64 (rand_num + 1) + plmn_id)

-- A token fits one key only.
pub autn-injective :
    (j k rand_num : ℕ) → j < 2 ^ 64 → k < 2 ^ 64 → autn_of j rand_num ≡ autn_of k rand_num → j ≡ k
autn-injective j k rand_num hj hk e = omega arith

module _ (J : Json) where
  -- The AUSF's reply for a key, which it takes for the random number too.
  abbrev pub vector : ℕ → ℕ → J.Value
  vector key plmn_id =
      let r1 = J.set_num J.null "autn_num" (autn_of key key) in
      let r2 = J.set_num r1 "rand_num" key in
      let r3 = J.set_num r2 "xres" (xres_of key key) in
      J.set_num r3 "k_asme" (k_asme_of key key plmn_id)

  get_autn_info_reply :
      (u : Udm) (imsi key rand_num : ℕ)
      → u.autn_info imsi ≡ some (key, rand_num)
      → callback J "/Nudm_UECM/GetAuthInfo" u (J.set_num J.null "imsi" imsi)
        ≡ ok (u, some (200, J.write (J.set_num (J.set_num J.null "key" key) "rand_num" rand_num)))
  unfolding callback get_autn_info
  get_autn_info_reply u imsi key rand_num row =
      ap (λ i. with_body (autn_reply J u (u.autn_info i))) (J.num_set_num J.null "imsi" imsi "imsi")
      ∙ ap (λ o. with_body (autn_reply J u o)) row

  -- The AUSF asks the UDM for the key of the IMSI, and replies the vector.
  pub ausf_vector :
      (u : Udm) (pkt : J.Value) (imsi key rand_num plmn_id : ℕ)
      → J.num pkt "imsi" ≡ imsi
      → J.num pkt "plmn_id" ≡ plmn_id
      → u.autn_info imsi ≡ some (key, rand_num)
      → Ausf.handle_autninfo_req J (handle J) u pkt ≡ ok (u, J.write (vector key plmn_id))
  unfolding Ausf.handle_autninfo_req
  ausf_vector u pkt imsi key rand_num plmn_id ei ep row =
      let reply = J.set_num (J.set_num J.null "key" key) "rand_num" rand_num in
      let same : J.num reply "key" ≡ key =
        J.num_set_num (J.set_num J.null "key" key) "rand_num" rand_num "key"
        ∙ J.num_set_num J.null "key" key "key" in
      bind_ok _
        (ap
            (λ i.
              send_and_receive J (handle J "/Nudm_UECM/GetAuthInfo") u (J.set_num J.null "imsi" i)
                J.null)
            ei
          ∙ asked J "/Nudm_UECM/GetAuthInfo" u u (J.set_num J.null "imsi" imsi) J.null reply
              (get_autn_info_reply u imsi key rand_num row))
        (ap (λ k. ok (u, J.write (vector k (J.num pkt "plmn_id")))) same
          ∙ ap (λ n. ok (u, J.write (vector key n))) ep)
