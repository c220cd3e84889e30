-- ===== src/Udm/Isolation.antt =====
-- What a request may change in the UDM: one context, and never its counters.
use Prim.Native.String.{String}
use text.Mathlib.Text.{◌==◌}
use g_core_rest_sba.Base.{
  ℕ, Bool, true, false, Option, none, some, ◌≡◌, ◌⊎◌, inl, inr, refl, sym, ap, ◌∙◌, subst,
  if◌then◌else◌, Bool-cases,
}
use g_core_rest_sba.Base.Map.{put, get_or, put_get}
use g_core_rest_sba.Base.Stop.{Result, ok, stop, ◌>>=◌}
use g_core_rest_sba.Json.{Json, as_uint, as_int}
use g_core_rest_sba.Udm.State.{UeContext, Udm, ctx, set_ctx, new_ctx}
use g_core_rest_sba.Udm.Handlers.{
  Answer, autn_reply, get_autn_info, set_loc_info, update_info_amf_initial_attach_init,
  update_info_amf_initial_attach, handle_autn_ue_ctx_request, ue_ctx_request_security_mode_cmd,
  ue_ctx_request_set_crypt_context, ue_ctx_update_set_integrity_context,
  ue_ctx_request_handle_security_mode_complete, ue_ctx_request_handle_location_update,
  ue_ctx_request_handle_attach_complete, ue_ctx_update_handle_attach_complete,
  ue_ctx_request_handle_modify_bearer, ue_ctx_request_handle_detach,
}
use g_core_rest_sba.Udm.Sessions.{
  ue_ctx_request_handle_create_session, ue_ctx_update_handle_craete_session,
  ue_ctx_update_set_upf_info, ue_ctx_request_smf_handle_create_session,
  ue_ctx_update_smf_handle_create_session, ue_ctx_request_smf_handle_modify_bearer,
  ue_ctx_request_smf_handle_detach,
}
use g_core_rest_sba.Udm.Server.{Response, with_body, no_body, callback, parsed, handle}

-- The inputs of the NAS key derivation that no handler writes.
abbrev pub SameCounters : UeContext → UeContext → Type 0
SameCounters old new = (new.count ≡ old.count) × (new.bearer ≡ old.bearer) × (new.dir ≡ old.dir)

-- No context has changed, or only the one of `guti`.
abbrev pub Own : ℕ → Udm → Udm → Type 0
Own guti u v =
    ((v.ue_ctx ≡ u.ue_ctx) ⊎ (v.ue_ctx ≡ put u.ue_ctx guti (ctx v guti)))
    × SameCounters (ctx u guti) (ctx v guti)

abbrev AnswerOwn : {X : Type 0} → ℕ → Udm → Answer X → Type 0
AnswerOwn {X} guti u m = (v : Udm) (b : X) → m ≡ ok (v, b) → Own guti u v

abbrev ResponseOwn : {X : Type 0} → ℕ → Udm → Response X → Type 0
ResponseOwn {X} guti u m = (v : Udm) (r : Option (ℕ × X)) → m ≡ ok (v, r) → Own guti u v

same_udm : {X : Type 0} {x : Udm × X} {v : Udm} {b : X} → ok x ≡ ok (v, b) → x.0 ≡ v
same_udm e = cc

written :
    {X : Type 0} (guti : ℕ) (u : Udm) (c : UeContext) (b : X)
    → SameCounters (ctx u guti) c
    → AnswerOwn guti u (ok (set_ctx u guti c, b))
unfolding ctx set_ctx
written guti u c b same v b' e =
    let now : ctx (set_ctx u guti c) guti ≡ c =
      ap (λ o. get_or o (new_ctx u.junk)) (put_get u.ue_ctx guti c) in
    subst (Own guti u) (same_udm e)
      (inr (ap (put u.ue_ctx guti) (sym now)), subst (SameCounters (ctx u guti)) (sym now) same)

kept :
    {X : Type 0} (guti : ℕ) (u w : Udm) (b : X)
    → w.ue_ctx ≡ u.ue_ctx
    → w.junk ≡ u.junk
    → AnswerOwn guti u (ok (w, b))
unfolding ctx
kept guti u w b same junk v b' e =
    let now : ctx w guti ≡ ctx u guti =
      ap (λ m. get_or (m guti) (new_ctx w.junk)) same
      ∙ ap (λ j. get_or (u.ue_ctx guti) (new_ctx j)) junk in
    subst (Own guti u) (same_udm e)
      (inl same, subst (SameCounters (ctx u guti)) (sym now) (refl, refl, refl))

after :
    {A X : Type 0} (guti : ℕ) (u : Udm) (m : Result A) (f : A → Answer X)
    → ((a : A) → AnswerOwn guti u (f a))
    → AnswerOwn guti u (m >>= f)
after guti u (ok a) f h v b e = h a v b e
after guti u (stop s) f h v b e = cc

module _ (J : Json) (u : Udm) (pkt : J.Value) where
  abbrev HandlerOwn : ((J : Json) → Udm → J.Value → Answer J.Text) → Type 0
  HandlerOwn handler = AnswerOwn (J.num pkt "guti") u (handler J u pkt)

  autn_reply-Own : (o : Option (ℕ × ℕ)) → AnswerOwn (J.num pkt "guti") u (autn_reply J u o)
  autn_reply-Own none v b e = cc
  autn_reply-Own (some (key, rand_num)) v b e = kept (J.num pkt "guti") u u _ refl refl v b e

  get_autn_info-Own : HandlerOwn get_autn_info
  unfolding get_autn_info
  get_autn_info-Own = autn_reply-Own (u.autn_info (J.num pkt "imsi"))

  set_loc_info-Own : HandlerOwn set_loc_info
  unfolding set_loc_info
  set_loc_info-Own =
      let g = J.num pkt "guti" in after g u (as_uint J pkt "mmei") _ (λ _. kept g u _ _ refl refl)

  update_info_amf_initial_attach_init-Own : HandlerOwn update_info_amf_initial_attach_init
  unfolding update_info_amf_initial_attach_init ctx set_ctx
  update_info_amf_initial_attach_init-Own =
      let g = J.num pkt "guti" in
      after g u (as_uint J pkt "nw_capability") _ (λ _.
        after g u (as_uint J pkt "enodeb_s1ap_ue_id") _ (λ _.
          after g u (as_uint J pkt "mme_s1ap_ue_id") _ (λ _. written g u _ _ (refl, refl, refl))))

  update_info_amf_initial_attach-Own : HandlerOwn update_info_amf_initial_attach
  unfolding update_info_amf_initial_attach ctx set_ctx
  update_info_amf_initial_attach-Own =
      let g = J.num pkt "guti" in written g u _ _ (refl, refl, refl)

  handle_autn_ue_ctx_request-Own : HandlerOwn handle_autn_ue_ctx_request
  unfolding handle_autn_ue_ctx_request ctx set_ctx
  handle_autn_ue_ctx_request-Own = let g = J.num pkt "guti" in written g u _ _ (refl, refl, refl)

  ue_ctx_request_security_mode_cmd-Own : HandlerOwn ue_ctx_request_security_mode_cmd
  unfolding ue_ctx_request_security_mode_cmd ctx set_ctx
  ue_ctx_request_security_mode_cmd-Own =
      let g = J.num pkt "guti" in written g u _ _ (refl, refl, refl)

  ue_ctx_request_set_crypt_context-Own : HandlerOwn ue_ctx_request_set_crypt_context
  unfolding ue_ctx_request_set_crypt_context ctx set_ctx
  ue_ctx_request_set_crypt_context-Own =
      let g = J.num pkt "guti" in written g u _ _ (refl, refl, refl)

  ue_ctx_update_set_integrity_context-Own : HandlerOwn ue_ctx_update_set_integrity_context
  unfolding ue_ctx_update_set_integrity_context ctx set_ctx
  ue_ctx_update_set_integrity_context-Own =
      let g = J.num pkt "guti" in written g u _ _ (refl, refl, refl)

  ue_ctx_request_handle_security_mode_complete-Own :
      HandlerOwn ue_ctx_request_handle_security_mode_complete
  unfolding ue_ctx_request_handle_security_mode_complete ctx set_ctx
  ue_ctx_request_handle_security_mode_complete-Own =
      let g = J.num pkt "guti" in written g u _ _ (refl, refl, refl)

  ue_ctx_request_handle_location_update-Own : HandlerOwn ue_ctx_request_handle_location_update
  unfolding ue_ctx_request_handle_location_update ctx set_ctx
  ue_ctx_request_handle_location_update-Own =
      let g = J.num pkt "guti" in written g u _ _ (refl, refl, refl)

  ue_ctx_request_handle_create_session-Own : HandlerOwn ue_ctx_request_handle_create_session
  unfolding ue_ctx_request_handle_create_session ctx set_ctx
  ue_ctx_request_handle_create_session-Own =
      let g = J.num pkt "guti" in
      after g u (as_uint J pkt "s11_cteid_amf") _
        (λ _. after g u (as_uint J pkt "eps_bearer_id") _ (λ _. written g u _ _ (refl, refl, refl)))

  ue_ctx_update_handle_craete_session-Own : HandlerOwn ue_ctx_update_handle_craete_session
  unfolding ue_ctx_update_handle_craete_session ctx set_ctx
  ue_ctx_update_handle_craete_session-Own =
      let g = J.num pkt "guti" in
      after g u (as_uint J pkt "s11_cteid_upf") _
        (λ _. after g u (as_uint J pkt "s1_uteid_ul") _ (λ _. written g u _ _ (refl, refl, refl)))

  ue_ctx_request_handle_attach_complete-Own : HandlerOwn ue_ctx_request_handle_attach_complete
  unfolding ue_ctx_request_handle_attach_complete ctx set_ctx
  ue_ctx_request_handle_attach_complete-Own =
      let g = J.num pkt "guti" in written g u _ _ (refl, refl, refl)

  ue_ctx_update_handle_attach_complete-Own : HandlerOwn ue_ctx_update_handle_attach_complete
  unfolding ue_ctx_update_handle_attach_complete ctx set_ctx
  ue_ctx_update_handle_attach_complete-Own =
      let g = J.num pkt "guti" in
      after g u (as_uint J pkt "s1_uteid_dl") _ (λ _. written g u _ _ (refl, refl, refl))

  ue_ctx_request_handle_modify_bearer-Own : HandlerOwn ue_ctx_request_handle_modify_bearer
  unfolding ue_ctx_request_handle_modify_bearer ctx set_ctx
  ue_ctx_request_handle_modify_bearer-Own =
      let g = J.num pkt "guti" in written g u _ _ (refl, refl, refl)

  ue_ctx_request_handle_detach-Own : HandlerOwn ue_ctx_request_handle_detach
  unfolding ue_ctx_request_handle_detach ctx set_ctx
  ue_ctx_request_handle_detach-Own = let g = J.num pkt "guti" in written g u _ _ (refl, refl, refl)

  ue_ctx_update_set_upf_info-Own : HandlerOwn ue_ctx_update_set_upf_info
  unfolding ue_ctx_update_set_upf_info ctx set_ctx
  ue_ctx_update_set_upf_info-Own =
      let g = J.num pkt "guti" in
      after g u (as_int J pkt "upf_smf_port") _ (λ _. written g u _ _ (refl, refl, refl))

  ue_ctx_request_smf_handle_create_session-Own : HandlerOwn ue_ctx_request_smf_handle_create_session
  unfolding ue_ctx_request_smf_handle_create_session ctx set_ctx
  ue_ctx_request_smf_handle_create_session-Own =
      let g = J.num pkt "guti" in
      after g u (as_uint J pkt "s11_cteid_mme") _
        (λ _. after g u (as_uint J pkt "eps_bearer_id") _ (λ _. written g u _ _ (refl, refl, refl)))

  ue_ctx_update_smf_handle_create_session-Own : HandlerOwn ue_ctx_update_smf_handle_create_session
  unfolding ue_ctx_update_smf_handle_create_session ctx set_ctx
  ue_ctx_update_smf_handle_create_session-Own =
      let g = J.num pkt "guti" in
      after g u (as_uint J pkt "s11_cteid_sgw") _
        (λ _. after g u (as_uint J pkt "s1_uteid_ul") _ (λ _. written g u _ _ (refl, refl, refl)))

  ue_ctx_request_smf_handle_modify_bearer-Own : HandlerOwn ue_ctx_request_smf_handle_modify_bearer
  unfolding ue_ctx_request_smf_handle_modify_bearer ctx set_ctx
  ue_ctx_request_smf_handle_modify_bearer-Own =
      let g = J.num pkt "guti" in written g u _ _ (refl, refl, refl)

  ue_ctx_request_smf_handle_detach-Own : HandlerOwn ue_ctx_request_smf_handle_detach
  unfolding ue_ctx_request_smf_handle_detach ctx set_ctx
  ue_ctx_request_smf_handle_detach-Own =
      let g = J.num pkt "guti" in written g u _ _ (refl, refl, refl)

-- The responses.
with_body-Own :
    {X : Type 0} (guti : ℕ) (u : Udm) (m : Answer X)
    → AnswerOwn guti u m
    → ResponseOwn guti u (with_body m)
with_body-Own guti u (ok (w, b)) h v r e = subst (Own guti u) (same_udm e) (h w b refl)
with_body-Own guti u (stop s) h v r e = cc

no_body-Own :
    {X : Type 0} (empty : X) (guti : ℕ) (u : Udm) (m : Answer X)
    → AnswerOwn guti u m
    → ResponseOwn guti u (no_body empty m)
no_body-Own empty guti u (ok (w, b)) h v r e = subst (Own guti u) (same_udm e) (h w b refl)
no_body-Own empty guti u (stop s) h v r e = cc

idle : {X : Type 0} (guti : ℕ) (u : Udm) (r : Option (ℕ × X)) → ResponseOwn guti u (ok (u, r))
idle guti u r v r' e = subst (Own guti u) (same_udm e) (inl refl, (refl, refl, refl))

branch :
    {X : Type 0} (b : Bool) (guti : ℕ) (u : Udm) (x y : Response X)
    → ResponseOwn guti u x
    → ResponseOwn guti u y
    → ResponseOwn guti u (if b then x else y)
branch true guti u x y h k = h
branch false guti u x y h k = k

callback-Own :
    (J : Json) (route : String) (u : Udm) (pkt : J.Value)
    → ResponseOwn (J.num pkt "guti") u (callback J route u pkt)
unfolding callback
callback-Own J route u pkt =
    let g = J.num pkt "guti" in
    branch (route == "/Nudm_UECM/GetAuthInfo") g u _ _
      (with_body-Own g u _ (get_autn_info-Own J u pkt))
      (branch (route == "/Nudm_UECM/SetLOCInfo") g u _ _
        (no_body-Own J.no_text g u _ (set_loc_info-Own J u pkt))
        (branch (route == "/Nudm_UECM/UpdateInitialAttachInit") g u _ _
          (no_body-Own J.no_text g u _ (update_info_amf_initial_attach_init-Own J u pkt))
          (branch (route == "/Nudm_UECM/UpdateInitialAttach") g u _ _
            (no_body-Own J.no_text g u _ (update_info_amf_initial_attach-Own J u pkt))
            (branch (route == "/Nudm_UECM/UECtx/SetAuth") g u _ _
              (with_body-Own g u _ (handle_autn_ue_ctx_request-Own J u pkt))
              (branch (route == "/Nudm_UECM/UECtx/SetSecurityCmd") g u _ _
                (with_body-Own g u _ (ue_ctx_request_security_mode_cmd-Own J u pkt))
                (branch (route == "/Nudm_UECM/UECtx/SetCrypt") g u _ _
                  (no_body-Own J.no_text g u _ (ue_ctx_request_set_crypt_context-Own J u pkt))
                  (branch (route == "/Nudm_UECM/UECtx/SetIntegrity") g u _ _
                    (no_body-Own J.no_text g u _ (ue_ctx_update_set_integrity_context-Own J u pkt))
                    (branch (route == "/Nudm_UECM/UECtx/HandleSecurityMode") g u _ _
                      (with_body-Own g u _
                        (ue_ctx_request_handle_security_mode_complete-Own J u pkt))
                      (branch (route == "/Nudm_UECM/UECtx/HandleLocationUpdate") g u _ _
                        (with_body-Own g u _ (ue_ctx_request_handle_location_update-Own J u pkt))
                        (branch (route == "/Nudm_UECM/UECtx/HandleCreateSessionBegin") g u _ _
                          (with_body-Own g u _ (ue_ctx_request_handle_create_session-Own J u pkt))
                          (branch (route == "/Nudm_UECM/UECtx/HandleCreateSessionEnd") g u _ _
                            (with_body-Own g u _ (ue_ctx_update_handle_craete_session-Own J u pkt))
                            (branch (route == "/Nudm_UECM/UECtx/HandleAttachComplete") g u _ _
                              (with_body-Own g u _
                                (ue_ctx_request_handle_attach_complete-Own J u pkt))
                              (branch (route == "/Nudm_UECM/UECtx/UpdateAttachComplete") g u _ _
                                (no_body-Own J.no_text g u _
                                  (ue_ctx_update_handle_attach_complete-Own J u pkt))
                                (branch (route == "/Nudm_UECM/UECtx/HandleModifyBearer") g u _ _
                                  (with_body-Own g u _
                                    (ue_ctx_request_handle_modify_bearer-Own J u pkt))
                                  (branch (route == "/Nudm_UECM/UECtx/HandleDetach") g u _ _
                                    (with_body-Own g u _ (ue_ctx_request_handle_detach-Own J u pkt))
                                    (branch (route == "/Nudm_UECM/UECtx/SetUPFInfo") g u _ _
                                      (no_body-Own J.no_text g u _
                                        (ue_ctx_update_set_upf_info-Own J u pkt))
                                      (branch (route == "/Nudm_UECM/UECtx/RequestSMFCreateSession")
                                        g u _ _
                                        (with_body-Own g u _
                                          (ue_ctx_request_smf_handle_create_session-Own J u pkt))
                                        (branch (route == "/Nudm_UECM/UECtx/UpdateSMFCreateSession")
                                          g u _ _
                                          (with_body-Own g u _
                                            (ue_ctx_update_smf_handle_create_session-Own J u pkt))
                                          (branch
                                            (route == "/Nudm_UECM/UECtx/RequestSMFModifyBearer") g u
                                            _ _
                                            (with_body-Own g u _
                                              (ue_ctx_request_smf_handle_modify_bearer-Own J u pkt))
                                            (branch (route == "/Nudm_UECM/UECtx/RequestSMFDetach") g
                                              u _ _
                                              (with_body-Own g u _
                                                (ue_ctx_request_smf_handle_detach-Own J u pkt))
                                              (idle g u _)))))))))))))))))))))

-- A request to the UDM, whatever its route, that is answered changes no context but that of the
-- GUTI it names, and never the inputs count, bearer and dir of the key derivation.
pub handle-Own :
    (J : Json) (route : String) (u v : Udm) (body : J.Text) (pkt : J.Value)
    (r : Option (ℕ × J.Text))
    → J.parse body ≡ some pkt
    → handle J route u body ≡ ok (v, r)
    → Own (J.num pkt "guti") u v
unfolding handle
handle-Own J route u v body pkt r p =
    branch (J.is_empty body) (J.num pkt "guti") u _ _ (idle (J.num pkt "guti") u none)
      (λ w s e. callback-Own J route u pkt w s (ap (parsed J route u) (sym p) ∙ e)) v r

parsed-Own :
    (J : Json) (route : String) (u v : Udm) (o : Option J.Value) (r : Option (ℕ × J.Text))
    → parsed J route u o ≡ ok (v, r)
    → (guti : ℕ) × Own guti u v
parsed-Own J route u v none r e = (0, idle 0 u (some (400, J.no_text)) v r e)
parsed-Own J route u v (some pkt) r e = (J.num pkt "guti", callback-Own J route u pkt v r e)

-- Any request that is answered touches one context at most.
pub handle-some :
    (J : Json) (route : String) (u v : Udm) (body : J.Text) (r : Option (ℕ × J.Text))
    → handle J route u body ≡ ok (v, r)
    → (guti : ℕ) × Own guti u v
unfolding handle
handle-some J route u v body r e = elim (Bool-cases (J.is_empty body)) [
  | inl empty ↦ (
    0,
    idle 0 u none v r
        (sym (ap (λ b. if b then ok (u, none) else parsed J route u (J.parse body)) empty) ∙ e),
  )
  | inr full ↦
      parsed-Own J route u v (J.parse body) r
        (sym (ap (λ b. if b then ok (u, none) else parsed J route u (J.parse body)) full) ∙ e)
]
