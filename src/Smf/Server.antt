-- ===== src/Smf/Server.antt =====
-- src/smf_server.cpp: the bodies of requests and responses, and the three routes.
use Prim.Native.String.{String}
use text.Mathlib.Text.{◌==◌}
use g_core_rest_sba.Base.{ℕ, Bool, Option, none, some, List, length, take, ltb, if◌then◌else◌}
use g_core_rest_sba.Base.Stop.{Result, ok, stop, overrun, ◌>>=◌}
use g_core_rest_sba.Packet.Buffer.{Packet}
use g_core_rest_sba.Json.{Json, num_member, text_member, uint_member, int_member}
use g_core_rest_sba.Base.Words.{u8}
use g_core_rest_sba.Net.Udp.{N4}
use g_core_rest_sba.Rest.{Routes}
use g_core_rest_sba.Smf.Handlers.{
  Smf, CreateSmContextRequest, CreateSmContextResponse, UpdateSmContextRequest,
  ReleaseSmContextRequest, handle_create_session, handle_modify_bearer, handle_detach,
}

-- What the memory of a callback's local variables holds before they are written.
pub record Memory : Type 0 where
  pub create_request : CreateSmContextRequest
  pub update_request : UpdateSmContextRequest
  pub release_request : ReleaseSmContextRequest
  pub res : Bool
  pub pkt : Packet

module _ (J : Json) where
  unfoldable pub create_sm_context_request_payload :
      CreateSmContextRequest → J.Value → Result CreateSmContextRequest
  create_sm_context_request_payload request root = do
    s11_cteid_mme ← uint_member J root "s11_cteid_mme" request.s11_cteid_mme
    eps ← uint_member J root "eps_bearer_id" request.eps_bearer_id
    ok (record {
      guti = num_member J root "guti" request.guti;
      imsi = num_member J root "imsi" request.imsi;
      s11_cteid_mme = s11_cteid_mme;
      eps_bearer_id = u8 eps;
      apn_in_use = num_member J root "apn_in_use" request.apn_in_use;
      tai = num_member J root "tai" request.tai;
    })

  -- The elements of the vector up to the size; one that is not there is a read out of its bounds.
  abbrev pub first_elements : ℕ → List ℕ → Result (List ℕ)
  first_elements n xs = if ltb (length xs) n then stop overrun else ok (take n xs)

  unfoldable pub create_sm_context_response_payload : CreateSmContextResponse → Result J.Value
  create_sm_context_response_payload response = do
    let r1 = J.set_num J.null "guti" response.guti
    let r2 = J.set_num r1 "eps_bearer_id" response.eps_bearer_id
    let r3 = J.set_num r2 "e_rab_id" response.e_rab_id
    let r4 = J.set_num r3 "s1_uteid_ul" response.s1_uteid_ul
    let r5 = J.set_num r4 "s11_cteid_sgw" response.s11_cteid_sgw
    let r6 = J.set_num r5 "k_enodeb" response.k_enodeb
    let r7 = J.set_num r6 "tai_list_size" response.tai_list_size
    tai_list ← first_elements response.tai_list_size response.tai_list
    let r8 = J.set_nums r7 "tai_list" tai_list
    let r9 = J.set_num r8 "tau_timer" response.tau_timer
    let r10 = J.set_text r9 "ue_ip_addr" response.ue_ip_addr
    let r11 = J.set_text r10 "upf_s1_ip_addr" response.upf_s1_ip_addr
    let r12 = J.set_num r11 "upf_s1_port" response.upf_s1_port
    ok (J.set_bool r12 "res" response.res)

  unfoldable pub update_sm_context_request_payload :
      UpdateSmContextRequest → J.Value → Result UpdateSmContextRequest
  update_sm_context_request_payload request root = do
    s1_uteid_dl ← uint_member J root "s1_uteid_dl" request.s1_uteid_dl
    eps ← uint_member J root "eps_bearer_id" request.eps_bearer_id
    g_trafmon_port ← int_member J root "g_trafmon_port" request.g_trafmon_port
    ok (record {
      guti = num_member J root "guti" request.guti;
      s1_uteid_dl = s1_uteid_dl;
      eps_bearer_id = u8 eps;
      g_trafmon_ip_addr = text_member J root "g_trafmon_ip_addr" request.g_trafmon_ip_addr;
      g_trafmon_port = g_trafmon_port;
    })

  unfoldable pub update_sm_context_response_payload : Bool → J.Value
  update_sm_context_response_payload res = J.set_bool J.null "res" res

  unfoldable pub release_sm_context_request_payload :
      ReleaseSmContextRequest → J.Value → Result ReleaseSmContextRequest
  release_sm_context_request_payload request root = do
    eps ← uint_member J root "eps_bearer_id" request.eps_bearer_id
    ok (record {
      guti = num_member J root "guti" request.guti;
      eps_bearer_id = u8 eps;
      tai = num_member J root "tai" request.tai;
    })

  unfoldable pub release_sm_context_response_payload : Bool → J.Value
  release_sm_context_response_payload res = J.set_bool J.null "res" res

  module _ {S U : Type 0} (udm : Routes S J.Text) (upf : N4 U) (memory : Memory) where
    abbrev pub State : Type 0
    State = Smf × S × U

    abbrev pub Response : Type 0
    Response = Result (State × Option (ℕ × J.Text))

    unfoldable pub create_route : State → J.Value → Response
    create_route (smf, s, u) root = do
      request ← create_sm_context_request_payload memory.create_request root
      (s1, u1, response) ← handle_create_session J udm upf smf memory.pkt s u request
      v ← create_sm_context_response_payload response
      ok ((smf, s1, u1), some (200, J.write v))

    unfoldable pub update_route : State → J.Value → Response
    update_route (smf, s, u) root = do
      request ← update_sm_context_request_payload memory.update_request root
      (smf1, s1, u1, res) ← handle_modify_bearer J udm upf smf memory.pkt s u request
      ok ((smf1, s1, u1), some (200, J.write (update_sm_context_response_payload res)))

    unfoldable pub release_route : State → J.Value → Response
    release_route (smf, s, u) root = do
      request ← release_sm_context_request_payload memory.release_request root
      (s1, u1, res) ← handle_detach J udm upf memory.pkt memory.res s u request
      ok ((smf, s1, u1), some (200, J.write (release_sm_context_response_payload res)))

    -- The registered routes; any other gets the server library's 404.
    unfoldable pub callback : String → State → J.Value → Response
    callback route s root =
        if route == "/Nsmf_PDUSession/CreateSMContext"
        then create_route s root
        else if route == "/Nsmf_PDUSession/UpdateSMContext"
        then update_route s root
        else if route == "/Nsmf_PDUSession/ReleaseSMContext"
        then release_route s root
        else ok (s, some (404, J.no_text))

    abbrev pub parsed_body : String → State → Option J.Value → Response
    parsed_body route s none = ok (s, some (400, J.no_text))
    parsed_body route s (some root) = callback route s root

    -- `handle_s11_traffic`: an empty body gets no response.
    unfoldable pub handle_s11_traffic : Routes State J.Text
    unfolding callback
    handle_s11_traffic route s body =
        if J.is_empty body then ok (s, none) else parsed_body route s (J.parse body)
