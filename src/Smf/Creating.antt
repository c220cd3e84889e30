-- ===== src/Smf/Creating.antt =====
-- What the UDM and the UPF do when the SMF creates a session: the two requests to the UDM and the
-- reply of the UPF, read item by item.
use g_core_rest_sba.Base.{ℕ, ◌^◌, ◌<◌, ◌≡◌, refl, ap, ◌∙◌, some, List, [], ◌∷◌, Bytes, arith}
use g_core_rest_sba.Base.Words.{u8}
use g_core_rest_sba.Base.Stop.{ok, bind_ok, bind_inv}
use g_core_rest_sba.Json.{Json}
use g_core_rest_sba.Packet.Buffer.{Packet, extract_gtp_hdr, extract_u32, extract_str}
use g_core_rest_sba.Packet.Items.{Item, Kind, word, text, words, texts, extract_item, extract_items}
use g_core_rest_sba.Packet.Message.{parse_gtp}
use g_core_rest_sba.Udm.State.{UeContext, Udm, ctx, set_ctx}
use g_core_rest_sba.Udm.Sessions.{
  ue_ctx_request_smf_handle_create_session, ue_ctx_update_smf_handle_create_session,
}
use g_core_rest_sba.Udm.Server.{callback, with_body}
use g_core_rest_sba.Attach.Network.{as_uint_lem}
use g_core_rest_sba.Smf.Handlers.{CreateSmContextRequest, g_timer}

-- Items read one after the other.
first_item :
    (k : Kind) (ks : List Kind) (p r : Packet) (i : Item) (is : List Item)
    → extract_items (k ∷ ks) p ≡ ok (i ∷ is, r)
    → (q : Packet) × (extract_item k p ≡ ok (i, q)) × (extract_items ks q ≡ ok (is, r))
first_item k ks p r i is h =
    let (y, f, g) = bind_inv (extract_item k p) _ h in
    let (z, f', g') = bind_inv (extract_items ks y.1) _ g in
    let one : y.0 ≡ i = cc in
    let others : z ≡ (is, r) = cc in (y.1, f ∙ ap (λ x. ok (x, y.1)) one, f' ∙ ap ok others)

word_read :
    (p q : Packet) (a : ℕ) → extract_item words p ≡ ok (word a, q) → extract_u32 p ≡ ok (a, q)
unfolding extract_item
word_read p q a h =
    let (x, f, g) = bind_inv (extract_u32 p) _ h in let same : x ≡ (a, q) = cc in f ∙ ap ok same

text_read :
    (p q : Packet) (s : Bytes) → extract_item texts p ≡ ok (text s, q) → extract_str p ≡ ok (s, q)
unfolding extract_item
text_read p q s h =
    let (x, f, g) = bind_inv (extract_str p) _ h in let same : x ≡ (s, q) = cc in f ∙ ap ok same

-- A header, a TEID, an address and a TEID, read one by one.
pub read_session :
    (p : Packet) (t e a : ℕ) (s : Bytes) (b : ℕ)
    → parse_gtp (words ∷ texts ∷ words ∷ []) p ≡ ok (t, e, word a ∷ text s ∷ word b ∷ [])
    → (q q1 q2 q3 : Packet) × (extract_gtp_hdr p ≡ ok q)
      × (extract_u32 q ≡ ok (a, q1))
      × (extract_str q1 ≡ ok (s, q2))
      × (extract_u32 q2 ≡ ok (b, q3))
read_session p t e a s b h =
    let (q, f, g) = bind_inv (extract_gtp_hdr p) _ h in
    let (x, k, l) = bind_inv (extract_items (words ∷ texts ∷ words ∷ []) q) _ g in
    let said : x.0 ≡ word a ∷ text s ∷ word b ∷ [] = cc in
    let (q1, f1, k1) =
      first_item words (texts ∷ words ∷ []) q x.1 _ _ (k ∙ ap (λ is. ok (is, x.1)) said) in
    let (q2, f2, k2) = first_item texts (words ∷ []) q1 x.1 _ _ k1 in
    let (q3, f3, _) = first_item words [] q2 x.1 _ _ k2 in
    (q, q1, q2, q3, f, word_read q q1 a f1, text_read q1 q2 s f2, word_read q2 q3 b f3)

-- What the UDM stores first.
abbrev pub begun : UeContext → CreateSmContextRequest → UeContext
begun c r = record c {
  s11_cteid_mme = r.s11_cteid_mme;
  eps_bearer_id = r.eps_bearer_id;
  imsi = r.imsi;
  apn_in_use = r.apn_in_use;
  tai = r.tai;
}

-- What the UDM stores last: the timer comes under another name than it is read by.
abbrev pub settled : UeContext → Bytes → ℕ → ℕ → UeContext
settled c address sgw ul = record c {
  ip_addr = address;
  s11_cteid_sgw = sgw;
  s1_uteid_ul = ul;
  tai_list = c.tai ∷ [];
  tau_timer = 0;
  e_rab_id = c.eps_bearer_id;
}

module _ (J : Json) where
  abbrev pub create_value : CreateSmContextRequest → J.Value
  create_value r =
      let q1 = J.set_num J.null "guti" r.guti in
      let q2 = J.set_num q1 "s11_cteid_mme" r.s11_cteid_mme in
      let q3 = J.set_num q2 "eps_bearer_id" r.eps_bearer_id in
      let q4 = J.set_num q3 "imsi" r.imsi in
      let q5 = J.set_num q4 "apn_in_use" r.apn_in_use in J.set_num q5 "tai" r.tai

  abbrev pub begun_reply : CreateSmContextRequest → J.Value
  begun_reply r =
      let r1 = J.set_num J.null "s11_cteid_mme" r.s11_cteid_mme in
      let r2 = J.set_num r1 "eps_bearer_id" r.eps_bearer_id in
      let r3 = J.set_num r2 "imsi" r.imsi in
      let r4 = J.set_num r3 "apn_in_use" r.apn_in_use in J.set_num r4 "tai" r.tai

  pub begins :
      (d : Udm) (r : CreateSmContextRequest)
      → r.s11_cteid_mme < 2 ^ 32
      → r.eps_bearer_id < 2 ^ 8
      → callback J "/Nudm_UECM/UECtx/RequestSMFCreateSession" d (create_value r)
        ≡ ok (set_ctx d r.guti (begun (ctx d r.guti) r), some (200, J.write (begun_reply r)))
  unfolding callback ue_ctx_request_smf_handle_create_session
  begins d r hm he =
      let v = create_value r in
      let vg : J.num v "guti" ≡ r.guti = simp J.num_set_num in
      let vm : J.num v "s11_cteid_mme" ≡ r.s11_cteid_mme = simp J.num_set_num in
      let ve : J.num v "eps_bearer_id" ≡ r.eps_bearer_id = simp J.num_set_num in
      let vi : J.num v "imsi" ≡ r.imsi = simp J.num_set_num in
      let va : J.num v "apn_in_use" ≡ r.apn_in_use = simp J.num_set_num in
      let vt : J.num v "tai" ≡ r.tai = simp J.num_set_num in
      let byte : u8 r.eps_bearer_id ≡ r.eps_bearer_id = omega arith in
      let stored : ue_ctx_request_smf_handle_create_session J d v
          ≡ ok (set_ctx d r.guti (begun (ctx d r.guti) r), J.write (begun_reply r)) =
        bind_ok _ (as_uint_lem J v "s11_cteid_mme" r.s11_cteid_mme vm hm) (
          bind_ok _ (as_uint_lem J v "eps_bearer_id" r.eps_bearer_id ve (omega arith))
            (rw (vg, vi, va, vt, byte) refl)) in
      ap with_body stored

  abbrev pub created_value : ℕ → Bytes → ℕ → ℕ → J.Value
  created_value guti address sgw ul =
      let w1 = J.set_num J.null "guti" guti in
      let w2 = J.set_text w1 "ue_ip_addr" address in
      let w3 = J.set_num w2 "s11_cteid_sgw" sgw in
      let w4 = J.set_num w3 "s1_uteid_ul" ul in J.set_num w4 "g_timer" g_timer

  abbrev pub settled_reply : UeContext → J.Value
  settled_reply c =
      let r1 = J.set_num J.null "e_rab_id" c.eps_bearer_id in
      let r2 = J.set_num r1 "k_enodeb" c.k_enodeb in
      let r3 = J.set_nums r2 "tai_list" (c.tai ∷ []) in J.set_num r3 "tau_timer" 0

  pub settles :
      (d : Udm) (guti : ℕ) (address : Bytes) (sgw ul : ℕ)
      → sgw < 2 ^ 32
      → ul < 2 ^ 32
      → callback J "/Nudm_UECM/UECtx/UpdateSMFCreateSession" d (created_value guti address sgw ul)
        ≡ ok (
          set_ctx d guti (settled (ctx d guti) address sgw ul),
          some (200, J.write (settled_reply (ctx d guti))),
        )
  unfolding callback ue_ctx_update_smf_handle_create_session
  settles d guti address sgw ul hs hu =
      let v = created_value guti address sgw ul in
      let w1 = J.set_num J.null "guti" guti in
      let vg : J.num v "guti" ≡ guti =
        simp (J.num_set_num, J.num_set_text w1 "ue_ip_addr" address "guti" refl) in
      let vs : J.num v "s11_cteid_sgw" ≡ sgw = simp J.num_set_num in
      let vu : J.num v "s1_uteid_ul" ≡ ul = simp J.num_set_num in
      let vt : J.num v "tau_timer" ≡ 0 =
        simp (J.num_set_num, J.num_set_text w1 "ue_ip_addr" address "tau_timer" refl, J.num_null) in
      let va : J.text v "ue_ip_addr" ≡ address = simp (
        J.text_set_num
            (J.set_num (J.set_num (J.set_text w1 "ue_ip_addr" address) "s11_cteid_sgw" sgw)
              "s1_uteid_ul" ul)
            "g_timer" g_timer "ue_ip_addr" refl,
        J.text_set_num (J.set_num (J.set_text w1 "ue_ip_addr" address) "s11_cteid_sgw" sgw)
            "s1_uteid_ul" ul "ue_ip_addr" refl,
        J.text_set_num (J.set_text w1 "ue_ip_addr" address) "s11_cteid_sgw" sgw "ue_ip_addr" refl,
        J.text_set_text,
      ) in
      let stored : ue_ctx_update_smf_handle_create_session J d v
          ≡ ok (
            set_ctx d guti (settled (ctx d guti) address sgw ul),
            J.write (settled_reply (ctx d guti)),
          ) =
        bind_ok _ (as_uint_lem J v "s11_cteid_sgw" sgw vs hs)
          (bind_ok _ (as_uint_lem J v "s1_uteid_ul" ul vu hu) (rw (vg, va, vt) refl)) in
      ap with_body stored
