-- ===== src/Amf/Admission.antt =====
-- Who is let into the AMF: `handle_ue` of src/amf_server.cpp on messages of a new UE, of a UE that it
-- does not know, and of no type that it knows.
use g_core_rest_sba.Base.{
  ℕ, ◌+◌, ◌^◌, ◌<◌, ◌≤◌, ◌≡◌, ◌≢◌, refl, sym, ap, ◌∙◌, ◌⊎◌, inl, inr, none, some, List, [], ◌∷◌,
  arith, length, unless,
}
use g_core_rest_sba.Base.Words.{u32, u64}
use g_core_rest_sba.Base.Map.{put, put_get}
use g_core_rest_sba.Base.Stop.{Result, ok, stop, zero_guti, ◌>>=◌, bind_ok, bind_case, bind_stop}
use g_core_rest_sba.Packet.Header.{S1apInRange, s1ap_hdr_len}
use g_core_rest_sba.Packet.Buffer.{Packet, buf_size, deliver, extract_u64, extract_u16}
use g_core_rest_sba.Telecom.Identity.{get_guti}
use g_core_rest_sba.Packet.Items.{Item, long, AllInRange, images}
use g_core_rest_sba.Packet.Message.{build_s1ap, s1ap_arrives, ArrivedS1}
use g_core_rest_sba.Packet.Copies.{copied}
use g_core_rest_sba.Net.Udp.{N4}
use g_core_rest_sba.Json.{Json}
use g_core_rest_sba.Rest.{Routes, send_and_receive}
use g_core_rest_sba.Security.Openssl.{Openssl}
use g_core_rest_sba.Amf.State.{Amf, Peers, Sent, guti_of, set_local}
use g_core_rest_sba.Amf.Attach.{handle_initial_attach, handle_autn}
use g_core_rest_sba.Amf.Security.{handle_security_mode_complete}
use g_core_rest_sba.Amf.Bearer.{handle_attach_complete, handle_detach}
use g_core_rest_sba.Amf.Server.{authenticated, secured, completed, known_ue, turn, handle_ue}
use g_core_rest_sba.Amf.Numbers.{Sound, unused}

module _ (J : Json) (O : Openssl) {S : Type 0} (net : Peers S J.Text) (smf : Routes S J.Text)
    (upf : N4 S) (a : Amf) (s : S) where
  -- What an attach request that is handled has come to: the GUTI of the UE, and the challenge.
  attach_inv :
      (pkt : Packet) (b : Amf) (t : S) (ms : List Packet)
      → handle_initial_attach J net a s pkt ≡ ok (b, t, ms)
      → (imsi guti autn rand_num ksi : ℕ) × (rest w m : Packet) × (extract_u64 pkt
          ≡ ok (imsi, rest))
        × (get_guti a.amf_ids.guamfi imsi ≡ ok guti)
        × (build_s1ap
              (long autn ∷ long rand_num ∷ long ksi ∷ [])
              1
              pkt.s1ap_hdr.enodeb_s1ap_ue_id
              (u32 (u64 (a.ue_count + 1)))
              w
            ≡ ok m)
        × (b.ue_count ≡ u64 (a.ue_count + 1))
        × (b.s1amf_id ≡ put a.s1amf_id (u32 (u64 (a.ue_count + 1))) guti)
        × (ms ≡ m ∷ [])
  unfolding handle_initial_attach set_local
  attach_inv pkt b t ms e = bind_case (extract_u64 pkt) _ e (λ x1 e1 f1.
      bind_case (extract_u64 x1.1) _ f1 (λ x2 _ f2. bind_case (extract_u64 x2.1) _ f2 (λ x3 _ f3.
        bind_case (extract_u16 x3.1) _ f3 (λ x4 _ f4.
          bind_case (get_guti a.amf_ids.guamfi x1.0) _ f4 (λ guti e5 f5.
            bind_case (send_and_receive J (net.udm "/Nudm_UECM/UpdateInitialAttachInit") s _ J.null)
              _ f5
              (λ x6 _ f6.
                bind_case
                  (send_and_receive J (net.ausf "/Nausf_UEAuthentication/Authenticate") x6.0 _
                    J.null)
                  _ f6
                  (λ x7 _ f7.
                    bind_case
                      (send_and_receive J (net.udm "/Nudm_UECM/UpdateInitialAttach") x7.0 _ J.null)
                      _ f7
                      (λ x8 _ f8.
                        bind_case
                          (build_s1ap
                            (long (J.num x7.2 "autn_num")
                              ∷ long (J.num x7.2 "rand_num")
                              ∷ long x3.0
                              ∷ [])
                            1 pkt.s1ap_hdr.enodeb_s1ap_ue_id (u32 (u64 (a.ue_count + 1))) x4.1)
                          _ f8
                          (λ m built f9. (
                            x1.0,
                            guti,
                            J.num x7.2 "autn_num",
                            J.num x7.2 "rand_num",
                            x3.0,
                            x1.1,
                            x4.1,
                            m,
                            e1,
                            e5,
                            built,
                            cc,
                            cc,
                            cc,
                          ))))))))))

  -- An attach request that an AMF with sound tables handles, fewer than 2 ^ 32 - 1 UEs after its
  -- start, whatever its peers answer, gives the UE the next number, which no UE had: the number is
  -- entered for the GUTI of the IMSI that the request names, the owner of no other number changes,
  -- and the one message that the AMF sends is a challenge for the eNodeB's number of the UE and
  -- that number.
  pub attach_number :
      (n : ℕ) (pkt : Packet) (b : Amf) (t : S) (ms : List Packet)
      → Sound n a
      → n + 1 < 2 ^ 32
      → handle_initial_attach J net a s pkt ≡ ok (b, t, ms)
      → (imsi guti autn rand_num ksi : ℕ) × (rest w m : Packet) × (extract_u64 pkt
          ≡ ok (imsi, rest))
        × (get_guti a.amf_ids.guamfi imsi ≡ ok guti)
        × (b.ue_count ≡ a.ue_count + 1)
        × (a.s1amf_id b.ue_count ≡ none)
        × (b.s1amf_id b.ue_count ≡ some guti)
        × ((mme : ℕ) → mme ≢ b.ue_count → b.s1amf_id mme ≡ a.s1amf_id mme)
        × (build_s1ap
              (long autn ∷ long rand_num ∷ long ksi ∷ [])
              1
              pkt.s1ap_hdr.enodeb_s1ap_ue_id
              b.ue_count
              w
            ≡ ok m)
        × (ms ≡ m ∷ [])
  attach_number n pkt b t ms h small e =
      let (imsi, guti, autn, rand_num, ksi, rest, w, m, read, known, built, counted, table, sent) =
        attach_inv pkt b t ms e in
      let count : b.ue_count ≡ a.ue_count + 1 = omega (arith, h.counted, counted) in
      let number : u32 (u64 (a.ue_count + 1)) ≡ b.ue_count = omega (arith, h.counted, counted) in
      let table2 : b.s1amf_id ≡ put a.s1amf_id b.ue_count guti =
        table ∙ ap (λ k. put a.s1amf_id k guti) number in
      (
        imsi,
        guti,
        autn,
        rand_num,
        ksi,
        rest,
        w,
        m,
        read,
        known,
        count,
        unused a b.ue_count h (omega arith),
        ap (λ f. f b.ue_count) table2 ∙ put_get a.s1amf_id b.ue_count guti,
        λ mme other. ap (λ f. f mme) table2 ∙ ground arith,
        ap
              (λ k.
                build_s1ap (long autn ∷ long rand_num ∷ long ksi ∷ []) 1
                  pkt.s1ap_hdr.enodeb_s1ap_ue_id k w)
              (sym number)
            ∙ built,
        sent,
      )

  module _ (p rx : Packet) (is : List Item) (t enodeb mme : ℕ) (g : S1apInRange p.s1ap_hdr)
      (clean : AllInRange is) (gt : t < 2 ^ 8) (ge : enodeb < 2 ^ 32) (gm : mme < 2 ^ 32)
      (room : s1ap_hdr_len + length (images is) ≤ buf_size) where
    abbrev sent : Result (ℕ × Amf × S × List Sent)
    sent = build_s1ap is t enodeb mme p >>= λ m. handle_ue J O net smf upf a s (deliver m rx)

    -- What `handle_ue` makes of the message, by the header that it reads.
    handled :
        (q : Packet) × (sent ≡ (turn J O net smf upf a s q >>= λ x. ok (1, x.0, x.1, x.2)))
        × ArrivedS1 q t enodeb mme is
    unfolding handle_ue deliver
    handled =
        let (c, q, e, f, here, some_bytes) =
          s1ap_arrives p is t enodeb mme g clean gt ge gm room rx in
        (q, bind_ok _ e (unless (ok (0, a, s, [])) some_bytes (bind_ok _ f refl)), here)

    stops :
        (q : Packet)
        → ArrivedS1 q t enodeb mme is
        → mme ≢ 0
        → a.s1amf_id mme ≡ none
        → 2 ≤ t
        → t ≤ 5
        → turn J O net smf upf a s q ≡ stop zero_guti
    unfolding turn known_ue authenticated secured completed handle_autn
        handle_security_mode_complete handle_attach_complete handle_detach guti_of
    stops q here other unknown low high =
        let (c, e, h) = copied q t enodeb mme is here in
        let none_there : a.s1amf_id c.s1ap_hdr.mme_s1ap_ue_id ≡ none =
          ap a.s1amf_id h.is_mme ∙ unknown in
        ground (arith, e, none_there, here.is_mme, here.is_type)

    ignores :
        (q : Packet)
        → ArrivedS1 q t enodeb mme is
        → ((mme ≡ 0) × (t ≢ 1)) ⊎ ((mme ≢ 0) × ((t < 2) ⊎ ((t ≡ 6) ⊎ (10 < t))))
        → turn J O net smf upf a s q ≡ ok (a, s, [])
    unfolding turn known_ue
    ignores q here (inl (zero, other)) = ground (arith, here.is_mme, here.is_type)
    ignores q here (inr (other, inl low)) = ground (arith, here.is_mme, here.is_type)
    ignores q here (inr (other, inr (inl six))) = ground (arith, here.is_mme, here.is_type)
    ignores q here (inr (other, inr (inr high))) = ground (arith, here.is_mme, here.is_type)

    -- A message of any items in range that fit the buffer, of a type from 2 to 5 and with a UE
    -- number that is not 0 and that the AMF has not given out, sent as a packet, stops the AMF.
    pub unknown_ue_stops :
        mme ≢ 0
        → a.s1amf_id mme ≡ none
        → 2 ≤ t
        → t ≤ 5
        → (build_s1ap is t enodeb mme p >>= λ m. handle_ue J O net smf upf a s (deliver m rx))
          ≡ stop zero_guti
    unknown_ue_stops other unknown low high =
        let (q, e, here) = handled in e ∙ bind_stop _ (stops q here other unknown low high)

    -- A message of any items in range that fit the buffer, sent as a packet, that has the UE
    -- number 0 and another type than 1, or a number and a type below 2, 6, or above 10, is taken
    -- from the connection and changes and sends nothing.
    pub unknown_type_ignored :
        ((mme ≡ 0) × (t ≢ 1)) ⊎ ((mme ≢ 0) × ((t < 2) ⊎ ((t ≡ 6) ⊎ (10 < t))))
        → (build_s1ap is t enodeb mme p >>= λ m. handle_ue J O net smf upf a s (deliver m rx))
          ≡ ok (1, a, s, [])
    unknown_type_ignored other =
        let (q, e, here) = handled in e ∙ bind_ok _ (ignores q here other) refl
