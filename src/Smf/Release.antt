-- ===== src/Smf/Release.antt =====
-- The release of a session from the SMF's request on, with the UDM and the UPF behind it.
use g_core_rest_sba.Base.{
  ℕ, ◌^◌, ◌<◌, ◌≡◌, ◌≢◌, refl, sym, ap, ◌∙◌, Bool, true, Option, none, some, List, [], ◌∷◌, arith,
}
use g_core_rest_sba.Base.Stop.{Result, ok, zero_guti, ◌>>=◌, bind_ok, bind_inv, pass}
use g_core_rest_sba.Json.{Json}
use g_core_rest_sba.Packet.Header.{GtpInRange}
use g_core_rest_sba.Packet.Buffer.{Packet, deliver, extract_gtp_hdr, extract_bool}
use g_core_rest_sba.Packet.Items.{Item, flag, flags, extract_item}
use g_core_rest_sba.Packet.Message.{parse_gtp}
use g_core_rest_sba.Udm.State.{Udm, ctx, set_ctx}
use g_core_rest_sba.Udm.Sessions.{ue_ctx_request_smf_handle_detach}
use g_core_rest_sba.Udm.Server.{callback, handle}
use g_core_rest_sba.Udm.Client.{asked}
use g_core_rest_sba.Upf.State.{Upf, UeContext}
use g_core_rest_sba.Upf.Handlers.{SockAddr, handle_s11}
use g_core_rest_sba.Upf.Request.{detach}
use g_core_rest_sba.Upf.Refinement.{request_packet}
use g_core_rest_sba.Upf.Sessions.{Linked}
use g_core_rest_sba.Upf.Changes.{detach_exchange, teid_small, without}
use g_core_rest_sba.Attach.Network.{as_uint_lem}
use g_core_rest_sba.Net.Udp.{N4}
use g_core_rest_sba.Smf.Handlers.{ReleaseSmContextRequest, handle_detach}

-- The first packet that the UPF sends, to a client that waits for one.
abbrev first : List (SockAddr × Packet) → Option Packet
first [] = none
first ((to, m) ∷ ms) = some m

-- The UPF over the network: it receives in `rx`, from the address `src`.
abbrev pub n4 : SockAddr → Packet → N4 Upf
n4 src rx u m = do (v, out) ← handle_s11 u src (deliver m rx); ok (v, first out)

said :
    {a b : Bool} {r : Packet} {y : Item × Packet} {x : List Item × Packet} {t e t1 e1 : ℕ}
    → ◌≡◌ {A = Result (Item × Packet)} (ok (flag a, r)) (ok y)
    → ◌≡◌ {A = Result (List Item × Packet)} (ok (y.0 ∷ [], y.1)) (ok x)
    → ◌≡◌ {A = Result (ℕ × ℕ × List Item)} (ok (t1, e1, x.0)) (ok (t, e, flag b ∷ []))
    → a ≡ b
said f g h = cc

-- A header and a truth value, read one by one.
pub read_flag :
    (p : Packet) (t e : ℕ) (b : Bool)
    → parse_gtp (flags ∷ []) p ≡ ok (t, e, flag b ∷ [])
    → (q r : Packet) × (extract_gtp_hdr p ≡ ok q) × (extract_bool q ≡ ok (b, r))
unfolding extract_item
read_flag p t e b h =
    let (q, f, g) = bind_inv (extract_gtp_hdr p) _ h in
    let (x, k, l) = bind_inv _ _ g in
    let (y, m, n) = bind_inv _ _ k in
    let (z, o, s) = bind_inv (extract_bool q) _ m in
    (q, z.1, f, o ∙ ap (λ c. ok (c, z.1)) (said s n l))

module _ (J : Json) where
  -- The UDM tells the control TEID that it has for the GUTI.
  detach_asked :
      (d : Udm) (guti : ℕ)
      → callback J "/Nudm_UECM/UECtx/RequestSMFDetach" d (J.set_num J.null "guti" guti)
        ≡ ok (
          set_ctx d guti (ctx d guti),
          some (200, J.write (J.set_num J.null "s11_cteid_sgw" (ctx d guti).s11_cteid_sgw)),
        )
  unfolding callback ue_ctx_request_smf_handle_detach
  detach_asked d guti =
      ap
        (λ g. ok (
          set_ctx d g (ctx d g),
          some (200, J.write (J.set_num J.null "s11_cteid_sgw" (ctx d g).s11_cteid_sgw)),
        ))
        (J.num_set_num J.null "guti" guti "guti")

  -- A release request for a GUTI that is not 0 and whose control TEID, as the UDM has it, is in
  -- use at a UPF with linked tables, with a bearer and a tracking area in range, runs through the
  -- UDM and the UPF to the end: the response is true, the TEID, the address and the context of the
  -- subscriber are erased from the four tables of the UPF, and the UDM keeps the context.
  pub release_lem :
      (d : Udm) (u : Upf) (src : SockAddr) (pkt rx : Packet) (unset : Bool)
      (request : ReleaseSmContextRequest) (imsi : ℕ)
      → GtpInRange pkt.gtp_hdr
      → Linked u
      → request.guti ≢ 0
      → request.eps_bearer_id < 2 ^ 8
      → request.tai < 2 ^ 64
      → u.s11_id (ctx d request.guti).s11_cteid_sgw ≡ some imsi
      → (c : UeContext) × (u.ue_ctx imsi ≡ some c)
        × (handle_detach J (handle J) (n4 src rx) pkt unset d u request
            ≡ ok (
              set_ctx d request.guti (ctx d request.guti),
              without u (ctx d request.guti).s11_cteid_sgw imsi c.ip_addr,
              true,
            ))
  unfolding handle_detach
  release_lem d u src pkt rx unset request imsi g l hg he ht h =
      let teid = (ctx d request.guti).s11_cteid_sgw in
      let low : teid < 2 ^ 32 = teid_small u teid imsi l h in
      let r = detach teid request.eps_bearer_id request.tai in
      let (_, _, _, f0, _) =
        detach_exchange u teid imsi request.eps_bearer_id request.tai src pkt rx rx g l h he ht in
      let (sent, e, _) = bind_inv (request_packet r pkt) _ f0 in
      let (c, m, known, f, told_true) =
        detach_exchange u teid imsi request.eps_bearer_id request.tai src pkt rx sent g l h he ht in
      let (q, _, hdr, flag_read) = read_flag (deliver m sent) 3 c.s11_cteid_smf true told_true in
      let served = sym (bind_ok (λ x. handle_s11 u src (deliver x rx)) e refl) ∙ f in
      (
        c,
        known,
        pass zero_guti (ground arith) (
            bind_ok _
              (asked J "/Nudm_UECM/UECtx/RequestSMFDetach" d
                (set_ctx d request.guti (ctx d request.guti)) (J.set_num J.null "guti" request.guti)
                J.null (J.set_num J.null "s11_cteid_sgw" teid) (detach_asked d request.guti))
              (bind_ok _
                (as_uint_lem J (J.set_num J.null "s11_cteid_sgw" teid) "s11_cteid_sgw" teid
                  (J.num_set_num J.null "s11_cteid_sgw" teid "s11_cteid_sgw") low)
                (bind_ok _ e
                  (bind_ok _ (bind_ok _ served refl) (bind_ok _ hdr (bind_ok _ flag_read refl)))))),
      )
