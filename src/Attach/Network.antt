-- ===== src/Attach/Network.antt =====
-- The AMF's side of the authentication, with the AUSF and the UDM behind it.
use Prim.Native.String.{String}
use g_core_rest_sba.Base.{
  ℕ, ◌^◌, ◌<◌, ◌≡◌, refl, ap, ◌∙◌, true, none, some, arith, if◌then◌else◌, ltb, unless,
}
use g_core_rest_sba.Base.Words.{u16}
use g_core_rest_sba.Base.Stop.{ok, stop, out_of_range, bind_ok}
use g_core_rest_sba.Json.{Json, as_uint}
use g_core_rest_sba.Rest.{send_and_receive, read_into}
use g_core_rest_sba.Udm.State.{Udm, ctx, set_ctx}
use g_core_rest_sba.Udm.Handlers.{
  update_info_amf_initial_attach, update_info_amf_initial_attach_init, handle_autn_ue_ctx_request,
}
use g_core_rest_sba.Udm.Server.{callback, handle, no_body}
use g_core_rest_sba.Ausf
use g_core_rest_sba.Amf.State.{Peers}
use g_core_rest_sba.Attach.Vectors.{vector, ausf_vector}

pub as_uint_lem :
    (J : Json) (v : J.Value) (k : String) (n : ℕ)
    → J.num v k ≡ n
    → n < 2 ^ 32
    → as_uint J v k ≡ ok n
as_uint_lem J v k n e h =
    let low : ltb n (2 ^ 32) ≡ true = ground arith in
    ap (λ m. if ltb m (2 ^ 32) then ok m else stop out_of_range) e
    ∙ ap (λ b. if b then ok n else stop out_of_range) low

module _ (J : Json) where
  -- The AUSF and the UDM, over the UDM's state.
  abbrev pub core : Peers Udm J.Text
  core = record { udm = handle J; ausf = Ausf.rest_server J (handle J) }

  pub ausf_answers :
      (u : Udm) (v recv : J.Value) (imsi key rand_num plmn_id : ℕ)
      → J.num v "imsi" ≡ imsi
      → J.num v "plmn_id" ≡ plmn_id
      → u.autn_info imsi ≡ some (key, rand_num)
      → send_and_receive J (core.ausf "/Nausf_UEAuthentication/Authenticate") u v recv
        ≡ ok (u, true, vector J key plmn_id)
  unfolding send_and_receive Ausf.rest_server Ausf.callback
  ausf_answers u v recv imsi key rand_num plmn_id ei ep row =
      bind_ok _
        (unless (ok (u, none)) (J.write_some v) (
          ap (Ausf.parsed_body J (handle J) "/Nausf_UEAuthentication/Authenticate" u)
            (J.parse_write v)
          ∙ bind_ok _ (ausf_vector J u v imsi key rand_num plmn_id ei ep row) refl))
        (ap (λ o. let r = read_into J recv o in ok (u, r.0, r.1))
          (J.parse_write (vector J key plmn_id)))

  -- What the UDM stores of a new UE, and of its vector.
  abbrev pub entered : Udm → ℕ → ℕ → ℕ → ℕ → ℕ → ℕ → Udm
  entered u guti imsi tai enodeb mme capability = set_ctx u guti (record (ctx u guti) {
    imsi = imsi;
    enodeb_s1ap_ue_id = enodeb;
    mme_s1ap_ue_id = mme;
    tai = tai;
    nw_capability = u16 capability;
  })

  abbrev pub keyed : Udm → ℕ → ℕ → ℕ → ℕ → Udm
  keyed u guti xres k_asme ksi =
      set_ctx u guti (record (ctx u guti) { xres = xres; k_asme = k_asme; ksi_asme = ksi })

  pub enters :
      (u : Udm) (v : J.Value) (guti imsi tai enodeb mme capability : ℕ)
      → J.num v "guti" ≡ guti
      → J.num v "imsi" ≡ imsi
      → J.num v "tai" ≡ tai
      → J.num v "enodeb_s1ap_ue_id" ≡ enodeb
      → J.num v "mme_s1ap_ue_id" ≡ mme
      → J.num v "nw_capability" ≡ capability
      → enodeb < 2 ^ 32
      → mme < 2 ^ 32
      → capability < 2 ^ 32
      → callback J "/Nudm_UECM/UpdateInitialAttachInit" u v
        ≡ ok (entered u guti imsi tai enodeb mme capability, some (200, J.no_text))
  unfolding callback update_info_amf_initial_attach_init
  enters u v guti imsi tai enodeb mme capability eg ei et ee em ec he hm hc =
      let stored : update_info_amf_initial_attach_init J u v
          ≡ ok (entered u guti imsi tai enodeb mme capability, J.braces) =
        bind_ok _ (as_uint_lem J v "nw_capability" capability ec hc) (
          bind_ok _ (as_uint_lem J v "enodeb_s1ap_ue_id" enodeb ee he)
            (bind_ok _ (as_uint_lem J v "mme_s1ap_ue_id" mme em hm) (rw (eg, ei, et)))) in
      ap (no_body J.no_text) stored

  pub keys :
      (u : Udm) (v : J.Value) (guti xres k_asme ksi : ℕ)
      → J.num v "guti" ≡ guti
      → J.num v "xres" ≡ xres
      → J.num v "k_asme" ≡ k_asme
      → J.num v "ksi_asme" ≡ ksi
      → callback J "/Nudm_UECM/UpdateInitialAttach" u v
        ≡ ok (keyed u guti xres k_asme ksi, some (200, J.no_text))
  unfolding callback update_info_amf_initial_attach
  keys u v guti xres k_asme ksi eg ex ek es =
      let stored : update_info_amf_initial_attach J u v
          ≡ ok (keyed u guti xres k_asme ksi, J.braces) =
        rw (eg, ex, ek, es) in
      ap (no_body J.no_text) stored

  pub recalls :
      (u : Udm) (v : J.Value) (guti : ℕ)
      → J.num v "guti" ≡ guti
      → callback J "/Nudm_UECM/UECtx/SetAuth" u v
        ≡ ok (
          set_ctx u guti (ctx u guti),
          some (200, J.write (J.set_num J.null "xres" (ctx u guti).xres)),
        )
  unfolding callback handle_autn_ue_ctx_request
  recalls u v guti eg = rw eg
