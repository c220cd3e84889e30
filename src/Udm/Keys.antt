-- ===== src/Udm/Keys.antt =====
-- The security context of a UE at the UDM: the requests of the AMF during an attach, in order.
use Prim.Native.String.{String}
use g_core_rest_sba.Base.{
  ℕ, ◌≡◌, refl, sym, ap, ◌∙◌, inl, inr, Option, none, some, List, [], ◌∷◌, arith, subst, ◌==◌,
  Bool-cases,
}
use g_core_rest_sba.Base.Map.{Map, put, get_or}
use g_core_rest_sba.Base.Stop.{Result, ok, ◌>>=◌, bind_inv}
use g_core_rest_sba.Json.{Json}
use g_core_rest_sba.Udm.State.{UeContext, Udm, new_udm, ctx, new_ctx}
use g_core_rest_sba.Udm.Server.{handle}
use g_core_rest_sba.Udm.Isolation.{handle-some, Own}

abbrev pub Fresh : UeContext → Type 0
Fresh c = (c.count ≡ 1) × (c.bearer ≡ 0) × (c.dir ≡ 1)

-- Every context has the counters that its constructor sets.
abbrev pub Counters : Udm → Type 0
Counters u = (guti : ℕ) (c : UeContext) → u.ue_ctx guti ≡ some c → Fresh c

found :
    (o : Option UeContext) (c : UeContext)
    → ((d : UeContext) → o ≡ some d → Fresh d)
    → Fresh c
    → Fresh (get_or o c)
found none c h f = f
found (some d) c h f = h d refl

pub ctx-Fresh : (u : Udm) (guti : ℕ) → Counters u → Fresh (ctx u guti)
unfolding ctx new_ctx
ctx-Fresh u guti h = found (u.ue_ctx guti) (new_ctx u.junk) (h guti) (refl, refl, refl)

Own-Counters : (u v : Udm) (guti : ℕ) → Own guti u v → Counters u → Counters v
Own-Counters u v guti (inl same, k) h g c e = h g c (ap (λ m. m g) (sym same) ∙ e)
Own-Counters u v guti (inr wrote, k) h g c e =
    let f : put u.ue_ctx guti (ctx v guti) g ≡ some c = ap (λ m. m g) (sym wrote) ∙ e in
    elim (Bool-cases (guti == g)) [
      | inl same ↦
          let old = ctx-Fresh u guti h in
          let now : ctx v guti ≡ c = ground arith in
          subst Fresh now (k.0 ∙ old.0, k.1 ∙ old.1, k.2 ∙ old.2)
      | inr other ↦ h g c (ground arith)
    ]

-- Requests, each a route and a body, answered in turn.
abbrev pub serve : (J : Json) → Udm → List (String × J.Text) → Result Udm
serve J u [] = ok u
serve J u ((route, body) ∷ rs) = handle J route u body >>= λ x. serve J (x.0) rs

pub new_udm-Counters :
    (autn : Map ℕ (ℕ × ℕ)) (loc : Map ℕ ℕ) (junk : ℕ) → Counters (new_udm autn loc junk)
unfolding new_udm
new_udm-Counters autn loc junk guti c e = cc

step-Counters :
    (J : Json) (route : String) (u v : Udm) (body : J.Text) (r : Option (ℕ × J.Text))
    → Counters u
    → handle J route u body ≡ ok (v, r)
    → Counters v
step-Counters J route u v body r h e =
    let (guti, own) = handle-some J route u v body r e in Own-Counters u v guti own h

-- Whatever requests a new UDM has answered, each on any route, every context has the values of
-- count, bearer and dir that its constructor sets.
pub serve-Counters :
    (J : Json) (rs : List (String × J.Text)) (autn : Map ℕ (ℕ × ℕ)) (loc : Map ℕ ℕ) (junk : ℕ)
    (v : Udm)
    → serve J (new_udm autn loc junk) rs ≡ ok v
    → Counters v
serve-Counters J rs autn loc junk v =
    from rs (new_udm autn loc junk) (new_udm-Counters autn loc junk)
  where
    from : (rs : List (String × J.Text)) (u : Udm) → Counters u → serve J u rs ≡ ok v → Counters v
    from [] u h e = let same : u ≡ v = cc in subst Counters same h
    from ((route, body) ∷ rs) u h e =
        let ((w, r), f, g) = bind_inv (handle J route u body) _ e in
        from rs w (step-Counters J route u w body r h f) g
