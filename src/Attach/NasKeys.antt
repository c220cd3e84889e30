-- ===== src/Attach/NasKeys.antt =====
-- The NAS keys of a UE: the UDM derives them when the AMF asks it to, the UE on its own.
use g_core_rest_sba.Base.{ℕ, ◌+◌, ◌≡◌, refl, ap, ◌∙◌, arith, some}
use g_core_rest_sba.Base.Words.{u64}
use g_core_rest_sba.Base.Stop.{ok, bind_ok}
use g_core_rest_sba.Json.{Json}
use g_core_rest_sba.Udm.State.{UeContext, Udm, ctx, set_ctx}
use g_core_rest_sba.Udm.Handlers.{
  ue_ctx_request_set_crypt_context, ue_ctx_update_set_integrity_context,
}
use g_core_rest_sba.Udm.Server.{callback}
use g_core_rest_sba.Udm.Client.{told, ctx-set_ctx}
use g_core_rest_sba.Udm.Keys.{Counters, ctx-Fresh}
use g_core_rest_sba.Amf.State.{Amf, set_local}
use g_core_rest_sba.Amf.Attach as Handlers
use g_core_rest_sba.Ran.Context as Ran
use g_core_rest_sba.Attach.Network.{core}

-- The contexts with the two keys.
abbrev pub crypt : UeContext → UeContext
crypt c = record c { nas_enc_algo = 1; k_nas_enc = u64 (c.k_asme + 1 + c.count + c.bearer + c.dir) }

abbrev pub integrity : UeContext → UeContext
integrity c = record c {
  nas_int_algo = 1;
  k_nas_int = u64 (c.k_asme + 1 + c.count + c.bearer + c.dir);
}

module _ (J : Json) where
  sets_crypt :
      (u : Udm) (guti : ℕ)
      → callback J "/Nudm_UECM/UECtx/SetCrypt" u (J.set_num J.null "guti" guti)
        ≡ ok (set_ctx u guti (crypt (ctx u guti)), some (200, J.no_text))
  unfolding callback ue_ctx_request_set_crypt_context
  sets_crypt u guti =
      ap (λ g. ok (set_ctx u g (crypt (ctx u g)), some (200, J.no_text)))
        (J.num_set_num J.null "guti" guti "guti")

  sets_integrity :
      (u : Udm) (guti : ℕ)
      → callback J "/Nudm_UECM/UECtx/SetIntegrity" u (J.set_num J.null "guti" guti)
        ≡ ok (set_ctx u guti (integrity (ctx u guti)), some (200, J.no_text))
  unfolding callback ue_ctx_update_set_integrity_context
  sets_integrity u guti =
      ap (λ g. ok (set_ctx u g (integrity (ctx u g)), some (200, J.no_text)))
        (J.num_set_num J.null "guti" guti "guti")

  -- Both requests are answered, and what the UDM then has; the AMF keeps its table of numbers.
  pub keys_set :
      (u : Udm) (a : Amf) (guti : ℕ)
      → (v : Udm) × (w : Udm) × (b : Amf) × (Handlers.set_crypt_context J (core J) u guti ≡ ok v)
        × (Handlers.set_integrity_context J (core J) a v guti ≡ ok (b, w))
        × (ctx w guti ≡ integrity (crypt (ctx u guti)))
        × (b.s1amf_id ≡ a.s1amf_id)
  unfolding Handlers.set_crypt_context Handlers.set_integrity_context set_local
  keys_set u a guti =
      let v = set_ctx u guti (crypt (ctx u guti)) in
      let w = set_ctx v guti (integrity (ctx v guti)) in
      let q = J.set_num J.null "guti" guti in
      let (_, _, t) = told J "/Nudm_UECM/UECtx/SetCrypt" u v q J.null (sets_crypt u guti) in
      let (_, _, s) = told J "/Nudm_UECM/UECtx/SetIntegrity" v w q J.null (sets_integrity v guti) in
      (
        v,
        w,
        _,
        bind_ok _ t refl,
        bind_ok _ s refl,
        ctx-set_ctx v guti (integrity (ctx v guti))
            ∙ ap integrity (ctx-set_ctx u guti (crypt (ctx u guti))),
        refl,
      )

  -- If the UDM has the UE's key and the counters that its constructor sets, and the UE has the
  -- algorithms 1 and its initial counters, then the two requests of the AMF for the NAS keys are
  -- answered and leave the UDM with the NAS keys that the UE derives for itself.
  pub nas_keys_agree :
      (u : Udm) (a : Amf) (guti : ℕ) (c : Ran.RanContext)
      → Counters u
      → (ctx u guti).k_asme ≡ c.k_asme
      → c.nas_enc_algo ≡ 1
      → c.nas_int_algo ≡ 1
      → c.count ≡ 1
      → c.bearer ≡ 0
      → c.dir ≡ 0
      → (v : Udm) × (w : Udm) × (b : Amf) × (Handlers.set_crypt_context J (core J) u guti ≡ ok v)
        × (Handlers.set_integrity_context J (core J) a v guti ≡ ok (b, w))
        × ((ctx w guti).k_nas_enc ≡ (Ran.set_crypt_context c).k_nas_enc)
        × ((ctx w guti).k_nas_int ≡ (Ran.set_integrity_context c).k_nas_int)
  unfolding Ran.set_crypt_context Ran.set_integrity_context
  nas_keys_agree u a guti c h ek ee ei ec eb ed =
      let (v, w, b, t, s, after, _) = keys_set u a guti in
      let (fc, fb, fd) = ctx-Fresh u guti h in
      (
        v,
        w,
        b,
        t,
        s,
        ap (λ x. x.k_nas_enc) after ∙ ap u64 (omega (arith, fc, fb, fd, ek, ee, ec, eb, ed)),
        ap (λ x. x.k_nas_int) after ∙ ap u64 (omega (arith, fc, fb, fd, ek, ei, ec, eb, ed)),
      )
