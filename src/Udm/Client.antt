-- ===== src/Udm/Client.antt =====
-- The UDM as its clients see it: `send_and_receive` to each of the routes of an attach.
use Prim.Native.String.{String}
use g_core_rest_sba.Base.{
  ℕ, ◌≡◌, refl, ap, ◌∙◌, Bool, true, none, some, unless, Bool-cases, inl, inr, ◌==◌, ==_iff,
}
use g_core_rest_sba.Base.Map.{get_or, put_get}
use g_core_rest_sba.Base.Stop.{ok, bind_ok}
use g_core_rest_sba.Json.{Json}
use g_core_rest_sba.Rest.{read_into, send_and_receive}
use g_core_rest_sba.Udm.State.{UeContext, Udm, ctx, set_ctx, new_ctx}
use g_core_rest_sba.Udm.Server.{callback, parsed, handle}

-- A context just written.
pub ctx-set_ctx : (u : Udm) (guti : ℕ) (c : UeContext) → ctx (set_ctx u guti c) guti ≡ c
unfolding ctx set_ctx
ctx-set_ctx u guti c = ap (λ o. get_or o (new_ctx u.junk)) (put_get u.ue_ctx guti c)

-- A context that is written as it was: no context changes.
pub ctx-set_same : (u : Udm) (n g : ℕ) → ctx (set_ctx u n (ctx u n)) g ≡ ctx u g
unfolding ctx set_ctx
ctx-set_same u n g = elim (Bool-cases (n == g)) [
  | inl same ↦ rw same (ap (ctx u) ((==_iff n g).0 same))
  | inr other ↦ rw other refl
]

module _ (J : Json) where
  -- A body that a client wrote reaches the callback as the value that it sent.
  handle-write :
      (route : String) (u : Udm) (v : J.Value) → handle J route u (J.write v) ≡ callback J route u v
  unfolding handle
  handle-write route u v =
      unless (ok (u, none)) (J.write_some v) (ap (parsed J route u) (J.parse_write v))

  -- A reply with a body, and one without.
  pub asked :
      (route : String) (u w : Udm) (v recv reply : J.Value)
      → callback J route u v ≡ ok (w, some (200, J.write reply))
      → send_and_receive J (handle J route) u v recv ≡ ok (w, true, reply)
  unfolding send_and_receive
  asked route u w v recv reply e =
      bind_ok _ (handle-write route u v ∙ e)
        (ap (λ o. let r = read_into J recv o in ok (w, r.0, r.1)) (J.parse_write reply))

  pub told :
      (route : String) (u w : Udm) (v recv : J.Value)
      → callback J route u v ≡ ok (w, some (200, J.no_text))
      → (done : Bool) × (x : J.Value) × (send_and_receive J (handle J route) u v recv
          ≡ ok (w, done, x))
  unfolding send_and_receive
  told route u w v recv e = (_, _, bind_ok _ (handle-write route u v ∙ e) refl)
