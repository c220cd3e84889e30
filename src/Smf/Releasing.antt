-- ===== src/Smf/Releasing.antt =====
-- A release as the AMF asks for it: a JSON body for the route of src/smf_server.cpp, with the UDM and
-- the UPF behind it.
use g_core_rest_sba.Base.{
  ℕ, ◌^◌, ◌<◌, ◌≡◌, ◌≢◌, refl, ap, ◌∙◌, true, none, some, arith, unless, when,
}
use g_core_rest_sba.Base.Words.{u8}
use g_core_rest_sba.Base.Stop.{ok, bind_ok}
use g_core_rest_sba.Json.{Json, uint_member, num_member}
use g_core_rest_sba.Rest.{send_and_receive, read_into}
use g_core_rest_sba.Packet.Header.{GtpInRange}
use g_core_rest_sba.Packet.Buffer.{Packet}
use g_core_rest_sba.Udm.State.{Udm, ctx, set_ctx}
use g_core_rest_sba.Udm.Server.{handle}
use g_core_rest_sba.Upf.State.{Upf, UeContext}
use g_core_rest_sba.Upf.Handlers.{SockAddr}
use g_core_rest_sba.Upf.Sessions.{Linked}
use g_core_rest_sba.Upf.Changes.{without}
use g_core_rest_sba.Attach.Network.{as_uint_lem}
use g_core_rest_sba.Smf.Handlers.{Smf, ReleaseSmContextRequest}
use g_core_rest_sba.Smf.Release.{n4, release_lem}
use g_core_rest_sba.Smf.Server.{
  Memory, release_sm_context_request_payload, release_sm_context_response_payload, release_route,
  callback, parsed_body, handle_s11_traffic,
}

module _ (J : Json) where
  -- The body that `Amf::handle_detach` sends, and what is read from it.
  abbrev pub release_value : ℕ → ℕ → ℕ → J.Value
  release_value guti eps tai =
      J.set_num (J.set_num (J.set_num J.null "guti" guti) "eps_bearer_id" eps) "tai" tai

  payload :
      (old : ReleaseSmContextRequest) (guti eps tai : ℕ)
      → eps < 2 ^ 8
      → release_sm_context_request_payload J old (release_value guti eps tai)
        ≡ ok (record { guti = guti; eps_bearer_id = eps; tai = tai })
  unfolding release_sm_context_request_payload uint_member num_member
  payload old guti eps tai small =
      let v = release_value guti eps tai in
      let hg : J.has v "guti" ≡ true = simp J.has_set_num in
      let he : J.has v "eps_bearer_id" ≡ true = simp J.has_set_num in
      let ht : J.has v "tai" ≡ true = simp J.has_set_num in
      let ng : J.num v "guti" ≡ guti = simp J.num_set_num in
      let ne : J.num v "eps_bearer_id" ≡ eps = simp J.num_set_num in
      let nt : J.num v "tai" ≡ tai = simp J.num_set_num in
      let byte : u8 eps ≡ eps = omega arith in
      bind_ok _ (when _ he (as_uint_lem J v "eps_bearer_id" eps ne (omega arith)))
        (rw (hg, ht, ng, nt, byte) refl)

  module _ (smf : Smf) (d : Udm) (u : Upf) (src : SockAddr) (rx : Packet) (memory : Memory)
      (guti eps tai imsi : ℕ) (g : GtpInRange memory.pkt.gtp_hdr) (l : Linked u) (hg : guti ≢ 0)
      (he : eps < 2 ^ 8) (ht : tai < 2 ^ 64)
      (h : u.s11_id (ctx d guti).s11_cteid_sgw ≡ some imsi) where
    pub releases :
        (c : UeContext) × (u.ue_ctx imsi ≡ some c)
        × (send_and_receive J
              (handle_s11_traffic J
                (handle J)
                (n4 src rx)
                memory
                "/Nsmf_PDUSession/ReleaseSMContext")
              (smf, d, u)
              (release_value guti eps tai)
              J.null
            ≡ ok (
              (
                smf,
                set_ctx d guti (ctx d guti),
                without u (ctx d guti).s11_cteid_sgw imsi c.ip_addr,
              ),
              true,
              J.set_bool J.null "res" true,
            ))
    unfolding send_and_receive handle_s11_traffic callback release_route
        release_sm_context_response_payload
    releases =
        let v = release_value guti eps tai in
        let request : ReleaseSmContextRequest = record {
          guti = guti;
          eps_bearer_id = eps;
          tai = tai;
        } in
        let (c, known, e) =
          release_lem J d u src memory.pkt rx memory.res request imsi g l hg he ht h in
        (
          c,
          known,
          bind_ok _
              (unless (ok ((smf, d, u), none)) (J.write_some v) (
                ap
                  (parsed_body J (handle J) (n4 src rx) memory "/Nsmf_PDUSession/ReleaseSMContext"
                    (smf, d, u))
                  (J.parse_write v)
                ∙ bind_ok _ (payload memory.release_request guti eps tai he) (bind_ok _ e refl)))
              (ap
                (λ o.
                  let r = read_into J J.null o in
                  ok (
                    (
                      smf,
                      set_ctx d guti (ctx d guti),
                      without u (ctx d guti).s11_cteid_sgw imsi c.ip_addr,
                    ),
                    r.0,
                    r.1,
                  ))
                (J.parse_write (J.set_bool J.null "res" true))),
        )
