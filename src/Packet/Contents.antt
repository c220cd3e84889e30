-- ===== src/Packet/Contents.antt =====
-- What a packet holds while it is built, and what it has left to read once it is delivered.
use g_core_rest_sba.Base.{
  ℕ, zero, suc, ◌∷◌, ◌+◌, ◌-◌, ◌≤◌, ◌≡◌, refl, sym, ap, ◌∙◌, [], ◌++◌, append_assoc, arith, Bytes,
  le→leb, length, take, drop, replicate, length-append, length-take, length-drop, length-replicate,
  take-append, drop-append, drop-drop,
}
use g_core_rest_sba.Base.Stop.{ok}
use g_core_rest_sba.Packet.Buffer.{
  Packet, buf_size, block, clear_pkt, append_bytes, prepend_item, extract_bytes, deliver, copy,
}

-- A packet under construction, whose contents are `bs`: the cursor stands at the end.
pub record Builds (p : Packet) (bs : Bytes) : Type 0 where
  pub sized : length p.data_bytes ≡ buf_size
  pub at_end : p.data_ptr ≡ length bs
  pub counted : p.len ≡ length bs
  pub fits : length bs ≤ buf_size
  pub holds : take p.len p.data_bytes ≡ bs

-- A packet whose bytes from the cursor on begin with `bs`.
pub record Reads (p : Packet) (bs : Bytes) : Type 0 where
  pub sized : length p.data_bytes ≡ buf_size
  pub within : p.data_ptr + length bs ≤ p.len
  pub fits : p.len ≤ buf_size
  pub tail : Bytes
  pub ahead : drop p.data_ptr p.data_bytes ≡ bs ++ tail

pub length-block : (bs : Bytes) → length bs ≤ buf_size → length (block bs) ≡ buf_size
unfolding block
length-block bs h = omega (
  arith,
  length-append bs (replicate (buf_size - length bs) 0),
  length-replicate {A = ℕ} (buf_size - length bs) 0,
)

pub take-block : (n : ℕ) (bs : Bytes) → n ≡ length bs → take n (block bs) ≡ bs
unfolding block
take-block n bs h = take-append n bs _ h

pub clear_pkt-Builds : (p : Packet) → Builds (clear_pkt p) []
unfolding clear_pkt
clear_pkt-Builds p = record {
  sized = length-block [] (omega arith);
  at_end = refl;
  counted = refl;
  fits = omega arith;
  holds = refl;
}

-- The bytes before the cursor.
Builds-before : (p : Packet) (bs : Bytes) → Builds p bs → take p.data_ptr p.data_bytes ≡ bs
Builds-before p bs h = ap (λ k. take k p.data_bytes) (h.at_end ∙ sym h.counted) ∙ h.holds

-- `cs` written over `d` between `bs` and what follows.
splice_length :
    (bs cs d : Bytes) (n : ℕ)
    → n ≡ length bs + length cs
    → n ≤ length d
    → length (bs ++ (cs ++ drop n d)) ≡ length d
splice_length bs cs d n e h =
    omega (arith, length-append bs (cs ++ drop n d), length-append cs (drop n d), length-drop n d)

splice_take :
    (bs cs r : Bytes) (n : ℕ) → n ≡ length bs + length cs → take n (bs ++ (cs ++ r)) ≡ bs ++ cs
splice_take bs cs r n e =
    rw (← append_assoc) (take-append n (bs ++ cs) r (omega (arith, length-append bs cs)))

pub append_bytes-Builds :
    (p : Packet) (bs cs : Bytes)
    → Builds p bs
    → length bs + length cs ≤ buf_size
    → (q : Packet) × (append_bytes cs p ≡ ok q) × Builds q (bs ++ cs)
unfolding append_bytes
append_bytes-Builds p bs cs h room = (
  record p {
    data_bytes = take p.data_ptr p.data_bytes ++ (cs ++ drop (p.data_ptr + length cs) p.data_bytes);
    data_ptr = p.data_ptr + length cs;
    len = p.len + length cs;
  },
  rw (le→leb (p.data_ptr + length cs) buf_size (omega (arith, h.at_end))),
  record {
    sized = rw (Builds-before p bs h) (
        splice_length bs cs p.data_bytes (p.data_ptr + length cs) (omega (arith, h.at_end))
          (omega (arith, h.at_end, h.sized))
        ∙ h.sized);
    at_end = omega (arith, length-append bs cs, h.at_end);
    counted = omega (arith, length-append bs cs, h.counted);
    fits = omega (arith, length-append bs cs);
    holds = rw (Builds-before p bs h) (
        splice_take bs cs (drop (p.data_ptr + length cs) p.data_bytes) (p.len + length cs)
          (omega (arith, h.counted)));
  },
)

pub prepend_item-Builds :
    (p : Packet) (bs cs : Bytes)
    → Builds p bs
    → length cs + length bs ≤ buf_size
    → (q : Packet) × (prepend_item cs p ≡ ok q) × Builds q (cs ++ bs)
unfolding prepend_item
prepend_item-Builds p bs cs h room = (
  record p {
    data_bytes = block (cs ++ take p.len p.data_bytes);
    data_ptr = p.data_ptr + length cs;
    len = p.len + length cs;
  },
  rw (le→leb (length cs + p.len) buf_size (omega (arith, h.counted))),
  record {
    sized = rw h.holds (length-block (cs ++ bs) (omega (arith, length-append cs bs)));
    at_end = omega (arith, length-append cs bs, h.at_end);
    counted = omega (arith, length-append cs bs, h.counted);
    fits = omega (arith, length-append cs bs);
    holds =
        rw h.holds (
          take-block (p.len + length cs) (cs ++ bs)
            (omega (arith, length-append cs bs, h.counted)));
  },
)

-- What arrives is what was built.
pub deliver-Reads : (p q : Packet) (bs : Bytes) → Builds p bs → Reads (deliver p q) bs
unfolding deliver block
deliver-Reads p q bs h = record {
  sized = rw h.holds (unfold block in length-block bs h.fits);
  within = omega (arith, h.counted);
  fits = omega (arith, h.counted, h.fits);
  tail = replicate (buf_size - length bs) 0;
  ahead = rw h.holds;
}

-- Bytes read from the cursor on, and what is then left.
pub extract_bytes_lem :
    (p : Packet) (n : ℕ) (cs ds : Bytes)
    → n ≡ length cs
    → Reads p (cs ++ ds)
    → extract_bytes n p ≡ ok (cs, record p { data_ptr = p.data_ptr + n })
unfolding extract_bytes
extract_bytes_lem p n cs ds e h =
    rw (le→leb (p.data_ptr + n) buf_size (omega (arith, h.within, h.fits, length-append cs ds)))
      (rw h.ahead (rw append_assoc (rw (take-append n cs (ds ++ h.tail) e))))

pub Reads-data_ptr :
    (p : Packet) (n : ℕ) (cs ds : Bytes)
    → n ≡ length cs
    → Reads p (cs ++ ds)
    → Reads (record p { data_ptr = p.data_ptr + n }) ds
Reads-data_ptr p n cs ds e h = record {
  sized = h.sized;
  within = omega (arith, h.within, length-append cs ds);
  fits = h.fits;
  tail = h.tail;
  ahead =
      sym (drop-drop p.data_ptr n p.data_bytes)
      ∙ (rw h.ahead (rw append_assoc (drop-append n cs (ds ++ h.tail) e)));
}

pub extract_bytes-Reads :
    (p : Packet) (n : ℕ) (cs ds : Bytes)
    → n ≡ length cs
    → Reads p (cs ++ ds)
    → (q : Packet) × (extract_bytes n p ≡ ok (cs, q)) × Reads q ds × (q.gtp_hdr ≡ p.gtp_hdr)
extract_bytes-Reads p n cs ds e h = (
  record p { data_ptr = p.data_ptr + n },
  extract_bytes_lem p n cs ds e h,
  Reads-data_ptr p n cs ds e h,
  refl,
)

pub take-append-le :
    (n : ℕ) (bs r : Bytes) → length bs ≤ n → take n (bs ++ r) ≡ bs ++ take (n - length bs) r
take-append-le n [] r h = ap (λ k. take k r) {y = n - 0} (omega arith)
take-append-le zero (b ∷ bs) r h = absurd (omega arith)
take-append-le (suc n) (b ∷ bs) r h = ap (◌∷◌ b) (
    take-append-le n bs r (omega arith)
    ∙ ap (λ k. bs ++ take k r) {x = n - length bs} (omega arith))

take-nil : (n : ℕ) → take {A = ℕ} n [] ≡ []
take-nil zero = refl
take-nil (suc n) = refl

drop-take : (m n : ℕ) (xs : Bytes) → drop m (take n xs) ≡ take (n - m) (drop m xs)
drop-take zero n xs = ap (λ k. take k xs) {x = n} (omega arith)
drop-take (suc m) zero xs = ap (λ k. take k (drop (suc m) xs)) {x = 0} (omega arith)
drop-take (suc m) (suc n) [] = sym (take-nil (suc n - suc m))
drop-take (suc m) (suc n) (x ∷ xs) =
    drop-take m n xs ∙ ap (λ k. take k (drop m xs)) {x = n - m} (omega arith)

drop-append-le : (n : ℕ) (xs ys : Bytes) → n ≤ length xs → drop n (xs ++ ys) ≡ drop n xs ++ ys
drop-append-le zero xs ys h = refl
drop-append-le (suc n) [] ys h = absurd (omega arith)
drop-append-le (suc n) (x ∷ xs) ys h = drop-append-le n xs ys (omega arith)

-- A copy by value reads like the original.
pub copy-Reads :
    (p : Packet) (bs : Bytes)
    → Reads p bs
    → (q : Packet) × (copy p ≡ ok q) × Reads q bs × (q.gtp_hdr ≡ p.gtp_hdr)
unfolding copy block
copy-Reads p bs h =
    let kept : Bytes = take p.len p.data_bytes in
    let zeros : Bytes = replicate (buf_size - length kept) 0 in
    let l : length kept ≡ p.len = omega (arith, length-take p.len p.data_bytes, h.sized, h.fits) in
    (
      record p { data_bytes = block kept },
      rw (le→leb p.len buf_size h.fits),
      record {
        sized = unfold block in length-block kept (omega (arith, l, h.fits));
        within = h.within;
        fits = h.fits;
        tail = take (p.len - p.data_ptr - length bs) h.tail ++ zeros;
        ahead =
            drop-append-le p.data_ptr kept zeros (omega (arith, l, h.within))
            ∙ ap (λ k. k ++ zeros)
                (drop-take p.data_ptr p.len p.data_bytes
                  ∙ ap (take (p.len - p.data_ptr)) h.ahead
                  ∙ take-append-le (p.len - p.data_ptr) bs h.tail (omega (arith, h.within)))
            ∙ append_assoc bs (take (p.len - p.data_ptr - length bs) h.tail) zeros;
      },
      refl,
    )
