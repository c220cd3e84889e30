-- ===== src/Ausf.antt =====
-- src/ausf.cpp and the routes of src/ausf_server.cpp: the authentication server function. It keeps no
-- state of its own; the UDM that it asks is a parameter.
use Prim.Native.String.{String}
use text.Mathlib.Text.{◌==◌}
use g_core_rest_sba.Base.{ℕ, ◌+◌, Option, none, some, if◌then◌else◌}
use g_core_rest_sba.Base.Words.{u64}
use g_core_rest_sba.Base.Stop.{Result, ok, ◌>>=◌}
use g_core_rest_sba.Json.{Json, as_uint}
use g_core_rest_sba.Rest.{Routes, send_and_receive}

module _ (J : Json) {S : Type 0} (udm : Routes S J.Text) where
  -- The vector is computed from the member "key" for the key and for the random number.
  unfoldable pub handle_autninfo_req : S → J.Value → Result (S × J.Text)
  handle_autninfo_req s pkt = do
    let req = J.set_num J.null "imsi" (J.num pkt "imsi")
    let plmn_id = J.num pkt "plmn_id"
    (s', parsed, res) ← send_and_receive J (udm "/Nudm_UECM/GetAuthInfo") s req J.null
    let key = J.num res "key"
    let rand_num = J.num res "key"
    let sqn = u64 (rand_num + 1)
    let xres = u64 (key + sqn + rand_num)
    let autn_num = u64 (xres + 1)
    let ck = u64 (xres + 2)
    let ik = u64 (xres + 3)
    let k_asme = u64 (ck + ik + sqn + plmn_id)
    let r1 = J.set_num J.null "autn_num" autn_num
    let r2 = J.set_num r1 "rand_num" rand_num
    let r3 = J.set_num r2 "xres" xres
    ok (s', J.write (J.set_num r3 "k_asme" k_asme))

  unfoldable pub handle_location_update : S → J.Value → Result (S × J.Text)
  handle_location_update s pkt = do
    mmei ← as_uint J pkt "mmei"
    let req = J.set_num (J.set_num J.null "imsi" (J.num pkt "imsi")) "mmei" mmei
    (s', parsed, res) ← send_and_receive J (udm "/Nudm_UECM/SetLOCInfo") s req J.null
    ok (s', J.write (J.set_num J.null "default_apn" 1))

  -- The two routes, and what happens to a body.
  unfoldable pub callback : String → S → J.Value → Result (S × Option (ℕ × J.Text))
  callback route s pkt =
      if route == "/Nausf_UEAuthentication/Authenticate"
      then (do (s', body) ← handle_autninfo_req s pkt; ok (s', some (200, body)))
      else if route == "/Nausf_UEAuthentication/LocationUpdate"
      then (do (s', body) ← handle_location_update s pkt; ok (s', some (200, body)))
      else ok (s, some (404, J.no_text))

  abbrev pub parsed_body : String → S → Option J.Value → Result (S × Option (ℕ × J.Text))
  parsed_body route s none = ok (s, some (400, J.no_text))
  parsed_body route s (some pkt) = callback route s pkt

  unfoldable pub rest_server : Routes S J.Text
  unfolding callback
  rest_server route s body =
      if J.is_empty body then ok (s, none) else parsed_body route s (J.parse body)
