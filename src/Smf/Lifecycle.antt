-- ===== src/Smf/Lifecycle.antt =====
-- A session from its creation to its release, by src/smf.cpp with the UDM and the UPF behind it.
use g_core_rest_sba.Base.{
  ℕ, ◌^◌, ◌<◌, ◌≡◌, ◌≢◌, refl, sym, ap, ◌∙◌, subst, true, none, some, arith, Bytes, Bool,
  Bool-cases, inl, inr, bytes_eq, bytes_eq_sound,
}
use g_core_rest_sba.Base.Map.{Map, get_or, put_get, put, erase, put_str, erase_str}
use g_core_rest_sba.Base.Stop.{ok}
use g_core_rest_sba.Json.{Json}
use g_core_rest_sba.Packet.Header.{GtpInRange}
use g_core_rest_sba.Packet.Buffer.{Packet}
use g_core_rest_sba.Udm.State.{Udm, ctx, set_ctx}
use g_core_rest_sba.Udm.Server.{handle}
use g_core_rest_sba.Upf.State.{Upf}
use g_core_rest_sba.Upf.Handlers.{SockAddr}
use g_core_rest_sba.Upf.Request.{address_of}
use g_core_rest_sba.Upf.Sessions.{Linked, Admissible}
use g_core_rest_sba.Upf.Changes.{without}
use g_core_rest_sba.Smf.Handlers.{
  Smf, CreateSmContextRequest, CreateSmContextResponse, ReleaseSmContextRequest,
  handle_create_session, handle_detach,
}
use g_core_rest_sba.Smf.Release.{n4, release_lem}
use g_core_rest_sba.Smf.Creation.{session_of, with_session, created, creates}

-- The four tables of the sessions are the same at every key.
pub record SameSessions (u w : Upf) : Type 0 where
  pub s11 : (t : ℕ) → w.s11_id t ≡ u.s11_id t
  pub s1 : (t : ℕ) → w.s1_id t ≡ u.s1_id t
  pub sgi : (ip : Bytes) → w.sgi_id ip ≡ u.sgi_id ip
  pub contexts : (i : ℕ) → w.ue_ctx i ≡ u.ue_ctx i

-- What is entered at a free key and erased again.
erased :
    {V : Type 0} (m : Map ℕ V) (k : ℕ) (x : V) → m k ≡ none → (j : ℕ) → erase (put m k x) k j ≡ m j
erased m k x free j = ground arith

erased_str :
    {V : Type 0} (m : Map Bytes V) (k : Bytes) (x : V)
    → m k ≡ none
    → (j : Bytes) → erase_str (put_str m k x) k j ≡ m j
erased_str m k x free j = elim (Bool-cases (bytes_eq k j)) [
  | inl same ↦ rw same (sym free ∙ ap m (bytes_eq_sound k j same))
  | inr other ↦ rw other refl
]

-- A session without a trace.
gone-SameSessions :
    (u : Upf) (r : CreateSmContextRequest)
    → u.s11_id r.s11_cteid_mme ≡ none
    → u.s1_id r.s11_cteid_mme ≡ none
    → u.sgi_id (address_of u r.imsi) ≡ none
    → u.ue_ctx r.imsi ≡ none
    → SameSessions u (without (with_session u r) r.s11_cteid_mme r.imsi (address_of u r.imsi))
gone-SameSessions u r h1 h2 h3 h4 = record {
  s11 = erased u.s11_id r.s11_cteid_mme _ h1;
  s1 = erased u.s1_id r.s11_cteid_mme _ h2;
  sgi = erased_str u.sgi_id (address_of u r.imsi) _ h3;
  contexts = erased u.ue_ctx r.imsi _ h4;
}

module _ (J : Json) (smf : Smf) (d : Udm) (u : Upf) (src : SockAddr) (pkt rx : Packet)
    (unset : Bool) (r : CreateSmContextRequest) (request : ReleaseSmContextRequest)
    (g : GtpInRange pkt.gtp_hdr) (l : Linked u) (hg : r.guti ≢ 0) (hi : r.imsi ≢ 0)
    (hm : r.s11_cteid_mme < 2 ^ 32) (he : r.eps_bearer_id < 2 ^ 8) (si : r.imsi < 2 ^ 64)
    (ha : r.apn_in_use < 2 ^ 64) (ht : r.tai < 2 ^ 64) (same : request.guti ≡ r.guti)
    (re : request.eps_bearer_id < 2 ^ 8) (rt : request.tai < 2 ^ 64) where
  -- A session that is created for a subscriber without one, whose control TEID and address no
  -- table has, with values in range, at a UPF with linked tables, and then released under its
  -- GUTI, which is not 0, leaves no trace: both requests run through the UDM and the UPF to the
  -- end, the release is answered with true, and the four tables of the UPF are then as they were
  -- at every key.
  pub session_traceless :
      u.s11_id r.s11_cteid_mme ≡ none
      → u.s1_id r.s11_cteid_mme ≡ none
      → u.sgi_id (address_of u r.imsi) ≡ none
      → u.ue_ctx r.imsi ≡ none
      → (d1 d2 : Udm) × (v w : Upf) × (response : CreateSmContextResponse) × (handle_create_session
            J
            (handle J)
            (n4 src rx)
            smf
            pkt
            d
            u
            r
          ≡ ok (d1, v, response))
        × (handle_detach J (handle J) (n4 src rx) pkt unset d1 v request ≡ ok (d2, w, true))
        × SameSessions u w
  session_traceless h1 h2 h3 h4 =
      let mme = r.s11_cteid_mme in
      let good : Admissible u (session_of r) = (hi, λ other e. cc, λ c e. cc, hm) in
      let (d1, e, settled, linked) = creates J smf d u src pkt rx r g l hg he si ha ht good in
      let v = with_session u r in
      let teid : (ctx d1 request.guti).s11_cteid_sgw ≡ mme =
        ap (λ n. (ctx d1 n).s11_cteid_sgw) same ∙ ap (λ c. c.s11_cteid_sgw) settled in
      let in_use : v.s11_id (ctx d1 request.guti).s11_cteid_sgw ≡ some r.imsi =
        ap v.s11_id teid ∙ put_get u.s11_id mme r.imsi in
      let known : request.guti ≢ 0 = subst (λ n. n ≢ 0) (sym same) hg in
      let (c, is_c, f) =
        release_lem J d1 v src pkt rx unset request r.imsi g linked known re rt in_use in
      let address : c.ip_addr ≡ address_of u r.imsi =
        ap (λ o. (get_or o c).ip_addr) (sym is_c ∙ put_get u.ue_ctx r.imsi _) in
      let d2 = set_ctx d1 request.guti (ctx d1 request.guti) in
      (
        d1,
        d2,
        v,
        without v mme r.imsi (address_of u r.imsi),
        created smf u (ctx d r.guti) r,
        e,
        f
            ∙ ap (λ t. ok (d2, without v t r.imsi c.ip_addr, true)) teid
            ∙ ap (λ ip. ok (d2, without v mme r.imsi ip, true)) address,
        gone-SameSessions u r h1 h2 h3 h4,
      )
