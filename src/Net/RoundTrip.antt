-- ===== src/Net/RoundTrip.antt =====
-- A packet sent by `write_sctp_pkt` and received by `read_sctp_pkt` of src/network.cpp.
use g_core_rest_sba.Base.{
  ℕ, zero, suc, ◌+◌, ◌-◌, ◌^◌, ◌<◌, ◌≤◌, ◌≡◌, refl, sym, ap, ◌∙◌, inl, inr, true, List, [], ◌∷◌,
  ◌++◌, append_assoc, Bytes, length, length-append, take, drop, take-append, drop-append, ltb, ◌==◌,
  arith, Bool-cases, unless, when, map, leb, if◌then◌else◌,
}
use g_core_rest_sba.Base.Stop.{ok, stop, overrun, bind_ok}
use g_core_rest_sba.Packet.Codec.{le_bytes, of_le, byte_range, of_le-le_bytes, length-le_bytes}
use g_core_rest_sba.Packet.Buffer.{Packet, buf_size, block, clear_pkt, prepend_len, deliver}
use g_core_rest_sba.Security.Filled.{Holds, prepended, prepended-Holds, prepend_lem, le→ltb_false}
use g_core_rest_sba.Net.Stream.{is_closed, is_closed_lem}
use g_core_rest_sba.Net.Frames.{
  Connection, Acceptance, takes, read_stream, write, write_loop, write_stream, stored, read_body,
  read_sctp_pkt, write_sctp_pkt,
}
use g_core_rest_sba.Net.Framing.{stream, Whole, read_stream_lem}

abbrev pub AllPositive : List ℕ → Type 0
AllPositive [] = Unit
AllPositive (k ∷ ks) = (0 < k) × AllPositive ks

take-none : (n : ℕ) → take {A = ℕ} n [] ≡ []
take-none zero = refl
take-none (suc n) = refl

take-split : (n r : ℕ) (xs : Bytes) → n ≤ r → take n xs ++ take (r - n) (drop n xs) ≡ take r xs
take-split zero r xs h = ap (λ k. take k xs) {x = r - 0} (omega arith)
take-split (suc n) zero xs h = absurd (omega arith)
take-split (suc n) (suc r) [] h = take-none (suc r - suc n)
take-split (suc n) (suc r) (x ∷ xs) h = ap (◌∷◌ x) (
    ap (λ k. take n xs ++ take k (drop n xs)) {y = r - n} (omega arith)
    ∙ take-split n r xs (omega arith))

write_sized :
    (r : ℕ) (ks : List ℕ)
    → 0 < r
    → AllPositive ks
    → (k : ℕ) × (rest : List ℕ) × (write r (map takes ks) ≡ (k, map takes rest))
      × (0 < k)
      × (k ≤ r)
      × AllPositive rest
write_sized r [] h all = (r, [], refl, h, omega arith, tt)
write_sized r (k ∷ ks) h all =
    let low = all.0 in (if leb k r then k else r, ks, refl, ground arith, ground arith, all.1)

-- A round of the loop, once `write` has returned.
abbrev written : ℕ → ℕ → ℕ → Bytes → ℕ × List Acceptance → ℕ × Bytes
written fuel len r buf (k, ks) =
    let rest = write_loop fuel len (r - k) (drop k buf) ks in
    if is_closed k
    then (k, [])
    else if r - k == 0
    then (len, take k buf)
    else (rest.0, take k buf ++ rest.1)

write_lem :
    (fuel len r : ℕ) (buf : Bytes) (ks : List ℕ)
    → 0 < r
    → r ≤ fuel
    → r < 2 ^ 31
    → AllPositive ks
    → write_loop fuel len r buf (map takes ks) ≡ (len, take r buf)
unfolding write_loop
write_lem zero len r buf ks h enough small all = absurd (omega arith)
write_lem (suc fuel) len r buf ks h enough small all =
    let (k, rest, e, some_bytes, at_most, others) = write_sized r ks h all in
    ap (written fuel len r buf) e
    ∙ unless _ (is_closed_lem k some_bytes (omega arith)) (elim (Bool-cases (r - k == 0)) [
      | inl done ↦ when _ done (ap (λ j. (len, take j buf)) {x = k} (ground arith))
      | inr more ↦ unless _ more (
          ap (λ (x : ℕ × Bytes). (x.0, take k buf ++ x.1))
            (write_lem fuel len (r - k) (drop k buf) rest (ground arith) (omega arith) (omega arith)
              others)
          ∙ ap (λ xs. (len, xs)) (take-split k r buf at_most))
    ])

lt→ltb : (a b : ℕ) → a < b → ltb a b ≡ true
lt→ltb a b h = ground arith

module _ (bs tail : Bytes) (c : Connection) (some_bytes : 0 < length bs)
    (small : length bs < 2 ^ 31) (w : Whole c)
    (brings : stream c ≡ (le_bytes 4 (length bs) ++ bs) ++ tail) (pkt : Packet) where
  -- A frame is read to its end, and what follows stays.
  read_frame :
      (d : Connection) × (read_sctp_pkt c pkt ≡ stored pkt (length bs, bs, d))
      × (stream d ≡ tail)
      × Whole d
  unfolding read_sctp_pkt
  read_frame =
      let n = length bs in
      let four : 4 ≡ length (le_bytes 4 n) = sym (length-le_bytes 4 n) in
      let ahead = brings ∙ append_assoc (le_bytes 4 n) bs tail in
      let room : 4 + n ≤ length (stream c) = omega (
        arith,
        ap length ahead,
        length-append (le_bytes 4 n) (bs ++ tail),
        length-append bs tail,
        four,
      ) in
      let (d, e, left, wd) = read_stream_lem 4 c (omega arith) (omega arith) (omega arith) w in
      let header : take 4 (stream c) ≡ le_bytes 4 n =
        ap (take 4) ahead ∙ take-append 4 (le_bytes 4 n) (bs ++ tail) four in
      let body : stream d ≡ bs ++ tail =
        left ∙ ap (drop 4) ahead ∙ drop-append 4 (le_bytes 4 n) (bs ++ tail) four in
      let (d2, e2, left2, wd2) =
        read_stream_lem n d some_bytes small (omega (arith, ap length body, length-append bs tail))
          wd in
      let announced : of_le (le_bytes 4 n) ≡ n =
        of_le-le_bytes 4 n (unfold byte_range in omega arith) in
      (
        d2,
        ap (read_body pkt) (e ∙ ap (λ xs. (4, xs, d)) header)
            ∙ ap (λ k. stored pkt (read_stream k d)) announced
            ∙ ap (stored pkt)
                (e2 ∙ ap (λ xs. (n, xs, d2)) (ap (take n) body ∙ take-append n bs tail refl)),
        left2 ∙ ap (drop n) body ∙ drop-append n bs tail refl,
        wd2,
      )

  -- A frame with more contents than the block of a packet holds, below 2 ^ 31 bytes, on a
  -- connection without errors that brings it, is written past the block of the receiver.
  pub long_frame_overruns : buf_size < length bs → read_sctp_pkt c pkt ≡ stop overrun
  long_frame_overruns long =
      let (d, e, _, _) = read_frame in e ∙ when _ (lt→ltb buf_size (length bs) long) refl

  -- The contents of a packet, not empty and with their length within the block, are written whole
  -- however many bytes each write takes, if none fails; from a connection without errors that
  -- brings that frame, in whatever pieces, and more, the reader gets the packet, and what follows
  -- stays to be read.
  pub frame_round_trip :
      (p : Packet) (ks : List ℕ)
      → Holds p bs
      → 4 + length bs ≤ buf_size
      → AllPositive ks
      → (d : Connection) × (write_sctp_pkt (map takes ks) p
          ≡ ok (4 + length bs, le_bytes 4 (length bs) ++ bs))
        × (read_sctp_pkt c pkt ≡ ok (length bs, deliver p pkt, d))
        × (stream d ≡ tail)
        × Whole d
  unfolding write_sctp_pkt write_stream prepend_len deliver clear_pkt
  frame_round_trip p ks held room all =
      let n = length bs in
      let four : length (le_bytes 4 p.len) ≡ 4 = length-le_bytes 4 p.len in
      let q = prepended (le_bytes 4 p.len) p in
      let hq : Holds q (le_bytes 4 p.len ++ bs) = prepended-Holds p (le_bytes 4 p.len) bs held in
      let size : q.len ≡ 4 + n = omega (arith, held.counted, four) in
      let (d, e, left, wd) = read_frame in
      (
        d,
        bind_ok _ (prepend_lem p (le_bytes 4 p.len) (omega (arith, held.counted, four))) (
            ap ok (
              unless _ (is_closed_lem q.len (omega (arith, size)) (omega (arith, size))) (
                write_lem q.len q.len q.len q.data_bytes ks (omega (arith, size)) (omega arith)
                  (omega (arith, size)) all
                ∙ ap (λ xs. (q.len, xs)) (hq.holds ∙ ap (λ k. le_bytes 4 k ++ bs) held.counted)
                ∙ ap (λ k. (k, le_bytes 4 n ++ bs)) size))),
        e
            ∙ unless _ (le→ltb_false buf_size n (omega arith)) (
                ap (λ xs. ok (n, record pkt { data_bytes = block xs; data_ptr = 0; len = n }, d))
                  (sym held.holds)
                ∙ ap
                    (λ k. ok (
                      n,
                      record pkt {
                        data_bytes = block (take p.len p.data_bytes);
                        data_ptr = 0;
                        len = k;
                      },
                      d,
                    ))
                    (sym held.counted)),
        left,
        wd,
      )
