-- ===== src/Udm/Handlers.antt =====
-- The handlers of src/udm.cpp. Each answers with the new state and the text of its reply.
use g_core_rest_sba.Base.{ℕ, ◌+◌, Option, none, some}
use g_core_rest_sba.Base.Words.{u16, u64}
use g_core_rest_sba.Base.Map.{put}
use g_core_rest_sba.Base.Stop.{Result, ok, stop, no_row, ◌>>=◌}
use g_core_rest_sba.Json.{Json, as_uint}
use g_core_rest_sba.Udm.State.{UeContext, Udm, ctx, set_ctx}

-- A handler answers, or the process stops.
abbrev pub Answer : Type 0 → Type 0
Answer X = Result (Udm × X)

module _ (J : Json) where
  -- The row of `select key_id, rand_num from autn_info where imsi = ...`.
  abbrev pub autn_reply : Udm → Option (ℕ × ℕ) → Answer J.Text
  autn_reply u none = stop no_row
  autn_reply u (some (key, rand_num)) =
      ok (u, J.write (J.set_num (J.set_num J.null "key" key) "rand_num" rand_num))

  unfoldable pub get_autn_info : Udm → J.Value → Answer J.Text
  get_autn_info u pkt = autn_reply u (u.autn_info (J.num pkt "imsi"))

  -- The row is deleted, then inserted.
  unfoldable pub set_loc_info : Udm → J.Value → Answer J.Text
  set_loc_info u pkt = do
    mmei ← as_uint J pkt "mmei"
    ok (record u { loc_info = put u.loc_info (J.num pkt "imsi") mmei }, J.braces)

  unfoldable pub update_info_amf_initial_attach : Udm → J.Value → Answer J.Text
  unfolding ctx set_ctx
  update_info_amf_initial_attach u pkt =
      let guti = J.num pkt "guti" in
      ok (
        set_ctx u guti (record (ctx u guti) {
          xres = J.num pkt "xres";
          k_asme = J.num pkt "k_asme";
          ksi_asme = J.num pkt "ksi_asme";
        }),
        J.braces,
      )

  unfoldable pub update_info_amf_initial_attach_init : Udm → J.Value → Answer J.Text
  unfolding ctx set_ctx
  update_info_amf_initial_attach_init u pkt = do
    nw_capability ← as_uint J pkt "nw_capability"
    enodeb_s1ap_ue_id ← as_uint J pkt "enodeb_s1ap_ue_id"
    mme_s1ap_ue_id ← as_uint J pkt "mme_s1ap_ue_id"
    let guti = J.num pkt "guti"
    ok (
      set_ctx u guti (record (ctx u guti) {
        imsi = J.num pkt "imsi";
        enodeb_s1ap_ue_id = enodeb_s1ap_ue_id;
        mme_s1ap_ue_id = mme_s1ap_ue_id;
        tai = J.num pkt "tai";
        nw_capability = u16 nw_capability;
      }),
      J.braces,
    )

  unfoldable pub handle_autn_ue_ctx_request : Udm → J.Value → Answer J.Text
  unfolding ctx set_ctx
  handle_autn_ue_ctx_request u pkt =
      let guti = J.num pkt "guti" in
      let c = ctx u guti in ok (set_ctx u guti c, J.write (J.set_num J.null "xres" c.xres))

  unfoldable pub ue_ctx_request_security_mode_cmd : Udm → J.Value → Answer J.Text
  unfolding ctx set_ctx
  ue_ctx_request_security_mode_cmd u pkt =
      let guti = J.num pkt "guti" in
      let c = ctx u guti in
      let r1 = J.set_num J.null "ksi_asme" c.ksi_asme in
      let r2 = J.set_num r1 "nw_capability" c.nw_capability in
      let r3 = J.set_num r2 "nas_enc_algo" c.nas_enc_algo in
      let r4 = J.set_num r3 "nas_int_algo" c.nas_int_algo in
      let r5 = J.set_num r4 "k_nas_enc" c.k_nas_enc in
      ok (set_ctx u guti c, J.write (J.set_num r5 "k_nas_int" c.k_nas_int))

  unfoldable pub ue_ctx_request_set_crypt_context : Udm → J.Value → Answer J.Text
  unfolding ctx set_ctx
  ue_ctx_request_set_crypt_context u pkt =
      let guti = J.num pkt "guti" in
      let c : UeContext = record (ctx u guti) { nas_enc_algo = 1 } in
      let key = u64 (c.k_asme + c.nas_enc_algo + c.count + c.bearer + c.dir) in
      ok (set_ctx u guti (record c { k_nas_enc = key }), J.braces)

  unfoldable pub ue_ctx_update_set_integrity_context : Udm → J.Value → Answer J.Text
  unfolding ctx set_ctx
  ue_ctx_update_set_integrity_context u pkt =
      let guti = J.num pkt "guti" in
      let c : UeContext = record (ctx u guti) { nas_int_algo = 1 } in
      let key = u64 (c.k_asme + c.nas_int_algo + c.count + c.bearer + c.dir) in
      ok (set_ctx u guti (record c { k_nas_int = key }), J.braces)

  -- The two NAS keys, which `ue_ctx_request_handle_attach_complete` replies as well.
  abbrev pub nas_keys : UeContext → J.Value
  nas_keys c = J.set_num (J.set_num J.null "k_nas_enc" c.k_nas_enc) "k_nas_int" c.k_nas_int

  unfoldable pub ue_ctx_request_handle_security_mode_complete : Udm → J.Value → Answer J.Text
  unfolding ctx set_ctx
  ue_ctx_request_handle_security_mode_complete u pkt =
      let guti = J.num pkt "guti" in
      let c = ctx u guti in ok (set_ctx u guti c, J.write (nas_keys c))

  unfoldable pub ue_ctx_request_handle_attach_complete : Udm → J.Value → Answer J.Text
  unfolding ctx set_ctx
  ue_ctx_request_handle_attach_complete u pkt =
      let guti = J.num pkt "guti" in
      let c = ctx u guti in ok (set_ctx u guti c, J.write (nas_keys c))

  unfoldable pub ue_ctx_request_handle_location_update : Udm → J.Value → Answer J.Text
  unfolding ctx set_ctx
  ue_ctx_request_handle_location_update u pkt =
      let guti = J.num pkt "guti" in
      let c = ctx u guti in ok (set_ctx u guti c, J.write (J.set_num J.null "imsi" c.imsi))

  unfoldable pub ue_ctx_request_handle_modify_bearer : Udm → J.Value → Answer J.Text
  unfolding ctx set_ctx
  ue_ctx_request_handle_modify_bearer u pkt =
      let guti = J.num pkt "guti" in
      let c : UeContext = record (ctx u guti) { ecm_state = 1 } in
      let r1 = J.set_num J.null "eps_bearer_id" c.eps_bearer_id in
      let r2 = J.set_num r1 "s1_uteid_dl" c.s1_uteid_dl in
      ok (set_ctx u guti c, J.write (J.set_num r2 "s11_cteid_upf" c.s11_cteid_upf))

  unfoldable pub ue_ctx_update_handle_attach_complete : Udm → J.Value → Answer J.Text
  unfolding ctx set_ctx
  ue_ctx_update_handle_attach_complete u pkt = do
    s1_uteid_dl ← as_uint J pkt "s1_uteid_dl"
    let guti = J.num pkt "guti"
    ok (set_ctx u guti (record (ctx u guti) { s1_uteid_dl = s1_uteid_dl; emm_state = 1 }), J.braces)

  unfoldable pub ue_ctx_request_handle_detach : Udm → J.Value → Answer J.Text
  unfolding ctx set_ctx
  ue_ctx_request_handle_detach u pkt =
      let guti = J.num pkt "guti" in
      let c = ctx u guti in
      let r3 = J.set_num (nas_keys c) "eps_bearer_id" c.eps_bearer_id in
      let r4 = J.set_num r3 "tai" c.tai in
      ok (set_ctx u guti c, J.write (J.set_num r4 "s11_cteid_upf" c.s11_cteid_upf))
