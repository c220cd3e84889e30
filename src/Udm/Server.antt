-- ===== src/Udm/Server.antt =====
-- src/udm_server.cpp: the routes, and what happens to the body of a request.
use Prim.Native.String.{String}
use text.Mathlib.Text.{◌==◌}
use g_core_rest_sba.Base.{ℕ, Option, none, some, if◌then◌else◌}
use g_core_rest_sba.Base.Stop.{Result, ok, ◌>>=◌}
use g_core_rest_sba.Json.{Json}
use g_core_rest_sba.Udm.State.{Udm}
use g_core_rest_sba.Udm.Handlers.{
  Answer, get_autn_info, set_loc_info, update_info_amf_initial_attach_init,
  update_info_amf_initial_attach, handle_autn_ue_ctx_request, ue_ctx_request_security_mode_cmd,
  ue_ctx_request_set_crypt_context, ue_ctx_update_set_integrity_context,
  ue_ctx_request_handle_security_mode_complete, ue_ctx_request_handle_location_update,
  ue_ctx_request_handle_attach_complete, ue_ctx_update_handle_attach_complete,
  ue_ctx_request_handle_modify_bearer, ue_ctx_request_handle_detach,
}
use g_core_rest_sba.Udm.Sessions.{
  ue_ctx_request_handle_create_session, ue_ctx_update_handle_craete_session,
  ue_ctx_update_set_upf_info, ue_ctx_request_smf_handle_create_session,
  ue_ctx_update_smf_handle_create_session, ue_ctx_request_smf_handle_modify_bearer,
  ue_ctx_request_smf_handle_detach,
}

-- The response to a request: a status and a body, or none at all.
abbrev pub Response : Type 0 → Type 0
Response X = Result (Udm × Option (ℕ × X))

-- `res.end(answer)`, and the call followed by `res.end()`.
abbrev pub with_body : {X : Type 0} → Answer X → Response X
with_body answer = do (u, body) ← answer; ok (u, some (200, body))

abbrev pub no_body : {X : Type 0} → X → Answer X → Response X
no_body empty answer = do (u, body) ← answer; ok (u, some (200, empty))

module _ (J : Json) where
  -- The callback of a route. A route that is not registered gets the server library's 404.
  unfoldable pub callback : String → Udm → J.Value → Response J.Text
  callback route u pkt =
      if route == "/Nudm_UECM/GetAuthInfo"
      then with_body (get_autn_info J u pkt)
      else if route == "/Nudm_UECM/SetLOCInfo"
      then no_body J.no_text (set_loc_info J u pkt)
      else if route == "/Nudm_UECM/UpdateInitialAttachInit"
      then no_body J.no_text (update_info_amf_initial_attach_init J u pkt)
      else if route == "/Nudm_UECM/UpdateInitialAttach"
      then no_body J.no_text (update_info_amf_initial_attach J u pkt)
      else if route == "/Nudm_UECM/UECtx/SetAuth"
      then with_body (handle_autn_ue_ctx_request J u pkt)
      else if route == "/Nudm_UECM/UECtx/SetSecurityCmd"
      then with_body (ue_ctx_request_security_mode_cmd J u pkt)
      else if route == "/Nudm_UECM/UECtx/SetCrypt"
      then no_body J.no_text (ue_ctx_request_set_crypt_context J u pkt)
      else if route == "/Nudm_UECM/UECtx/SetIntegrity"
      then no_body J.no_text (ue_ctx_update_set_integrity_context J u pkt)
      else if route == "/Nudm_UECM/UECtx/HandleSecurityMode"
      then with_body (ue_ctx_request_handle_security_mode_complete J u pkt)
      else if route == "/Nudm_UECM/UECtx/HandleLocationUpdate"
      then with_body (ue_ctx_request_handle_location_update J u pkt)
      else if route == "/Nudm_UECM/UECtx/HandleCreateSessionBegin"
      then with_body (ue_ctx_request_handle_create_session J u pkt)
      else if route == "/Nudm_UECM/UECtx/HandleCreateSessionEnd"
      then with_body (ue_ctx_update_handle_craete_session J u pkt)
      else if route == "/Nudm_UECM/UECtx/HandleAttachComplete"
      then with_body (ue_ctx_request_handle_attach_complete J u pkt)
      else if route == "/Nudm_UECM/UECtx/UpdateAttachComplete"
      then no_body J.no_text (ue_ctx_update_handle_attach_complete J u pkt)
      else if route == "/Nudm_UECM/UECtx/HandleModifyBearer"
      then with_body (ue_ctx_request_handle_modify_bearer J u pkt)
      else if route == "/Nudm_UECM/UECtx/HandleDetach"
      then with_body (ue_ctx_request_handle_detach J u pkt)
      else if route == "/Nudm_UECM/UECtx/SetUPFInfo"
      then no_body J.no_text (ue_ctx_update_set_upf_info J u pkt)
      else if route == "/Nudm_UECM/UECtx/RequestSMFCreateSession"
      then with_body (ue_ctx_request_smf_handle_create_session J u pkt)
      else if route == "/Nudm_UECM/UECtx/UpdateSMFCreateSession"
      then with_body (ue_ctx_update_smf_handle_create_session J u pkt)
      else if route == "/Nudm_UECM/UECtx/RequestSMFModifyBearer"
      then with_body (ue_ctx_request_smf_handle_modify_bearer J u pkt)
      else if route == "/Nudm_UECM/UECtx/RequestSMFDetach"
      then with_body (ue_ctx_request_smf_handle_detach J u pkt)
      else ok (u, some (404, J.no_text))

  abbrev pub parsed : String → Udm → Option J.Value → Response J.Text
  parsed route u none = ok (u, some (400, J.no_text))
  parsed route u (some pkt) = callback route u pkt

  -- `handle` with its `on_data`: an empty chunk is ignored, and so never answered.
  unfoldable pub handle : String → Udm → J.Text → Response J.Text
  unfolding callback
  handle route u body = if J.is_empty body then ok (u, none) else parsed route u (J.parse body)
