-- ===== src/Udm/Sessions.antt =====
-- The handlers of src/udm.cpp that set a session up, for the AMF and for the SMF.
use g_core_rest_sba.Base.{[], ◌∷◌}
use g_core_rest_sba.Base.Words.{u8}
use g_core_rest_sba.Base.Stop.{ok, ◌>>=◌}
use g_core_rest_sba.Json.{Json, as_uint, as_int}
use g_core_rest_sba.Udm.State.{UeContext, Udm, ctx, set_ctx}
use g_core_rest_sba.Udm.Handlers.{Answer}

module _ (J : Json) where
  unfoldable pub ue_ctx_request_handle_create_session : Udm → J.Value → Answer J.Text
  unfolding ctx set_ctx
  ue_ctx_request_handle_create_session u pkt = do
    s11_cteid_amf ← as_uint J pkt "s11_cteid_amf"
    eps_bearer_id ← as_uint J pkt "eps_bearer_id"
    let guti = J.num pkt "guti"
    let c : UeContext = record (ctx u guti) {
      s11_cteid_amf = s11_cteid_amf;
      eps_bearer_id = u8 eps_bearer_id;
    }
    let r1 = J.set_num J.null "s11_cteid_amf" c.s11_cteid_amf
    let r2 = J.set_num r1 "imsi" c.imsi
    let r3 = J.set_num r2 "eps_bearer_id" c.eps_bearer_id
    let r4 = J.set_text r3 "upf_smf_ip_addr" c.upf_smf_ip_addr
    let r5 = J.set_num r4 "upf_smf_port" c.upf_smf_port
    let r6 = J.set_num r5 "apn_in_use" c.apn_in_use
    ok (set_ctx u guti c, J.write (J.set_num r6 "tai" c.tai))

  unfoldable pub ue_ctx_update_handle_craete_session : Udm → J.Value → Answer J.Text
  unfolding ctx set_ctx
  ue_ctx_update_handle_craete_session u pkt = do
    s11_cteid_upf ← as_uint J pkt "s11_cteid_upf"
    s1_uteid_ul ← as_uint J pkt "s1_uteid_ul"
    let guti = J.num pkt "guti"
    let old = ctx u guti
    let c : UeContext = record old {
      ip_addr = J.text pkt "ue_ip_addr";
      s11_cteid_upf = s11_cteid_upf;
      s1_uteid_ul = s1_uteid_ul;
      tai_list = old.tai ∷ [];
      tau_timer = J.num pkt "tau_timer";
      e_rab_id = old.eps_bearer_id;
      k_enodeb = old.k_asme;
    }
    let r1 = J.set_num J.null "e_rab_id" c.e_rab_id
    let r2 = J.set_num r1 "k_enodeb" c.k_enodeb
    let r3 = J.set_num r2 "nw_capability" c.nw_capability
    let r4 = J.set_nums r3 "tai_list" (c.tai ∷ [])
    let r5 = J.set_num r4 "tau_timer" c.tau_timer
    let r6 = J.set_num r5 "k_nas_enc" c.k_nas_enc
    ok (set_ctx u guti c, J.write (J.set_num r6 "k_nas_int" c.k_nas_int))

  unfoldable pub ue_ctx_update_set_upf_info : Udm → J.Value → Answer J.Text
  unfolding ctx set_ctx
  ue_ctx_update_set_upf_info u pkt = do
    upf_smf_port ← as_int J pkt "upf_smf_port"
    let guti = J.num pkt "guti"
    let c : UeContext = record (ctx u guti) {
      upf_smf_port = upf_smf_port;
      upf_smf_ip_addr = J.text pkt "upf_smf_ip_addr";
    }
    ok (set_ctx u guti c, J.braces)

  unfoldable pub ue_ctx_request_smf_handle_create_session : Udm → J.Value → Answer J.Text
  unfolding ctx set_ctx
  ue_ctx_request_smf_handle_create_session u pkt = do
    s11_cteid_mme ← as_uint J pkt "s11_cteid_mme"
    eps_bearer_id ← as_uint J pkt "eps_bearer_id"
    let guti = J.num pkt "guti"
    let c : UeContext = record (ctx u guti) {
      s11_cteid_mme = s11_cteid_mme;
      eps_bearer_id = u8 eps_bearer_id;
      imsi = J.num pkt "imsi";
      apn_in_use = J.num pkt "apn_in_use";
      tai = J.num pkt "tai";
    }
    let r1 = J.set_num J.null "s11_cteid_mme" c.s11_cteid_mme
    let r2 = J.set_num r1 "eps_bearer_id" c.eps_bearer_id
    let r3 = J.set_num r2 "imsi" c.imsi
    let r4 = J.set_num r3 "apn_in_use" c.apn_in_use
    ok (set_ctx u guti c, J.write (J.set_num r4 "tai" c.tai))

  unfoldable pub ue_ctx_update_smf_handle_create_session : Udm → J.Value → Answer J.Text
  unfolding ctx set_ctx
  ue_ctx_update_smf_handle_create_session u pkt = do
    s11_cteid_sgw ← as_uint J pkt "s11_cteid_sgw"
    s1_uteid_ul ← as_uint J pkt "s1_uteid_ul"
    let guti = J.num pkt "guti"
    let old = ctx u guti
    let c : UeContext = record old {
      ip_addr = J.text pkt "ue_ip_addr";
      s11_cteid_sgw = s11_cteid_sgw;
      s1_uteid_ul = s1_uteid_ul;
      tai_list = old.tai ∷ [];
      tau_timer = J.num pkt "tau_timer";
      e_rab_id = old.eps_bearer_id;
    }
    let r1 = J.set_num J.null "e_rab_id" c.e_rab_id
    let r2 = J.set_num r1 "k_enodeb" c.k_enodeb
    let r3 = J.set_nums r2 "tai_list" c.tai_list
    ok (set_ctx u guti c, J.write (J.set_num r3 "tau_timer" c.tau_timer))

  unfoldable pub ue_ctx_request_smf_handle_modify_bearer : Udm → J.Value → Answer J.Text
  unfolding ctx set_ctx
  ue_ctx_request_smf_handle_modify_bearer u pkt =
      let guti = J.num pkt "guti" in
      let c = ctx u guti in
      let r1 = J.set_num J.null "eps_bearer_id" c.eps_bearer_id in
      let r2 = J.set_num r1 "s1_uteid_dl" c.s1_uteid_dl in
      ok (set_ctx u guti c, J.write (J.set_num r2 "s11_cteid_sgw" c.s11_cteid_sgw))

  unfoldable pub ue_ctx_request_smf_handle_detach : Udm → J.Value → Answer J.Text
  unfolding ctx set_ctx
  ue_ctx_request_smf_handle_detach u pkt =
      let guti = J.num pkt "guti" in
      let c = ctx u guti in
      ok (set_ctx u guti c, J.write (J.set_num J.null "s11_cteid_sgw" c.s11_cteid_sgw))
