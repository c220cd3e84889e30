-- ===== src/Net/Framing.antt =====
-- What `read_stream` of src/network.cpp makes of a connection, however its bytes are cut into pieces.
use g_core_rest_sba.Base.{
  ℕ, leb→le, length-drop, zero, suc, ◌+◌, ◌-◌, ◌^◌, ◌<◌, ◌≤◌, ◌≡◌, refl, sym, ap, ◌∙◌, subst, inl,
  inr, Bool, true, false, [], ◌∷◌, ◌++◌, append_assoc, Bytes, length, length-append, length-take,
  take, drop, take-append, drop-append, take-append-drop, leb, ◌==◌, if◌then◌else◌, arith,
  Bool-cases, unless, when,
}
use g_core_rest_sba.Packet.Contents.{take-append-le}
use g_core_rest_sba.Net.Stream.{is_closed, is_closed_lem}
use g_core_rest_sba.Net.Frames.{bytes, failure, Connection, read, read_loop, read_stream}

-- The bytes that a connection brings, and a connection without errors or empty pieces.
abbrev pub stream : Connection → Bytes
stream [] = []
stream (bytes bs ∷ c) = bs ++ stream c
stream (failure ∷ c) = []

abbrev pub Whole : Connection → Type 0
Whole [] = Unit
Whole (bytes bs ∷ c) = (0 < length bs) × Whole c
Whole (failure ∷ c) = true ≡ false

drop-append-le : (n : ℕ) (bs r : Bytes) → length bs ≤ n → drop n (bs ++ r) ≡ drop (n - length bs) r
drop-append-le n [] r h = ap (λ k. drop k r) {y = n - 0} (omega arith)
drop-append-le zero (b ∷ bs) r h = absurd (omega arith)
drop-append-le (suc n) (b ∷ bs) r h =
    drop-append-le n bs r (omega arith) ∙ ap (λ k. drop k r) {x = n - length bs} (omega arith)

-- What one `read` leaves.
record Reading (n : ℕ) (c : Connection) (k : ℕ) (bs : Bytes) (c1 : Connection) : Type 0 where
  some_bytes : 0 < k
  at_most : k ≤ n
  counted : k ≡ length bs
  splits : stream c ≡ bs ++ stream c1
  whole : Whole c1

take-all : (n : ℕ) (bs : Bytes) → length bs ≤ n → take n bs ≡ bs
take-all zero [] h = refl
take-all zero (b ∷ bs) h = absurd (omega arith)
take-all (suc n) [] h = refl
take-all (suc n) (b ∷ bs) h = ap (◌∷◌ b) (take-all n bs (omega arith))

piece :
    (n : ℕ) (bs : Bytes) (c : Connection) (b : Bool)
    → leb (length bs) n ≡ b
    → 0 < n
    → Whole (bytes bs ∷ c)
    → Reading n
        (bytes bs ∷ c)
        (length (take n bs))
        (take n bs)
        (if b then c else bytes (drop n bs) ∷ c)
piece n bs c true e h w =
    let all : take n bs ≡ bs = take-all n bs (leb→le (length bs) n e) in
    record {
      some_bytes = omega (arith, w.0, length-take n bs);
      at_most = omega (arith, length-take n bs);
      counted = refl;
      splits = ap (λ xs. xs ++ stream c) (sym all);
      whole = w.1;
    }
piece n bs c false e h w =
    let longer : n < length bs = ground arith in
    record {
      some_bytes = omega (arith, length-take n bs);
      at_most = omega (arith, length-take n bs);
      counted = refl;
      splits =
          ap (λ xs. xs ++ stream c) (sym (take-append-drop n bs))
          ∙ append_assoc (take n bs) (drop n bs) (stream c);
      whole = (omega (arith, length-drop n bs), w.1);
    }

read_lem :
    (n : ℕ) (c : Connection)
    → 0 < n
    → Whole c
    → 0 < length (stream c)
    → let (k, bs, c1) = read n c in Reading n c k bs c1
read_lem n [] h w more = absurd (omega arith)
read_lem n (failure ∷ c) h w more = cc
read_lem n (bytes bs ∷ c) h w more = piece n bs c (leb (length bs) n) refl h w

-- With a round for each byte that is wanted, and the bytes there, the loop reads just these.
loop_lem :
    (fuel len r : ℕ) (got : Bytes) (c : Connection)
    → 0 < r
    → r ≤ fuel
    → r < 2 ^ 31
    → r ≤ length (stream c)
    → Whole c
    → (d : Connection) × (read_loop fuel len r got c ≡ (len, got ++ take r (stream c), d))
      × (stream d ≡ drop r (stream c))
      × Whole d
unfolding read_loop
loop_lem zero len r got c h enough small there w = absurd (omega arith)
loop_lem (suc fuel) len r got c h enough small there w =
    let (k, bs, c1) = read r c in
    let now : Reading r c k bs c1 = read_lem r c h w (omega arith) in
    let goes_on : is_closed k ≡ false =
      is_closed_lem k now.some_bytes (omega (arith, now.at_most)) in
    elim (Bool-cases (r - k == 0)) [
      | inl done ↦
          let all : r ≡ length bs = ground (arith, now.at_most, now.counted) in
          (
            c1,
            unless _ goes_on (
                when _ done (
                  ap (λ xs. (len, got ++ xs, c1))
                    (sym (ap (take r) now.splits ∙ take-append r bs (stream c1) all)))),
            sym (ap (drop r) now.splits ∙ drop-append r bs (stream c1) all),
            now.whole,
          )
      | inr more ↦
          let part : 0 < r - k = ground arith in
          let there1 : r - k ≤ length (stream c1) =
            omega (arith, now.counted, ap length now.splits, length-append bs (stream c1)) in
          let (d, e, f, wd) =
            loop_lem fuel len (r - k) (got ++ bs) c1 part (omega (arith, now.some_bytes))
              (omega arith) there1 now.whole in
          let first : length bs ≤ r = omega (arith, now.at_most, now.counted) in
          let rest : r - length bs ≡ r - k = omega (arith, now.counted) in
          (
            d,
            unless _ goes_on (
                unless _ more (
                  e
                  ∙ ap (λ xs. (len, xs, d))
                      (append_assoc got bs (take (r - k) (stream c1))
                        ∙ ap (λ xs. got ++ xs)
                            (sym (
                              ap (take r) now.splits
                              ∙ take-append-le r bs (stream c1) first
                              ∙ ap (λ j. bs ++ take j (stream c1)) rest))))),
            (f
                ∙ sym (
                    ap (drop r) now.splits
                    ∙ drop-append-le r bs (stream c1) first
                    ∙ ap (λ j. drop j (stream c1)) rest)),
            wd,
          )
    ]

pub read_stream_lem :
    (n : ℕ) (c : Connection)
    → 0 < n
    → n < 2 ^ 31
    → n ≤ length (stream c)
    → Whole c
    → (d : Connection) × (read_stream n c ≡ (n, take n (stream c), d))
      × (stream d ≡ drop n (stream c))
      × Whole d
unfolding read_stream
read_stream_lem n c h small there w =
    let (d, e, left, wd) = loop_lem n n n [] c h (omega arith) small there w in
    (d, unless _ (is_closed_lem n h small) e, left, wd)

under_if :
    {A : Type 0} (b : Bool) (x y z : A)
    → (b ≡ false → y ≡ z)
    → (if b then x else y) ≡ (if b then x else z)
under_if true x y z h = refl
under_if false x y z h = h refl

more_fuel :
    (fuel extra len r : ℕ) (got : Bytes) (c : Connection)
    → 0 < r
    → r ≤ fuel
    → read_loop (fuel + extra) len r got c ≡ read_loop fuel len r got c
unfolding read_loop
more_fuel zero extra len r got c h enough = absurd (omega arith)
more_fuel (suc fuel) extra len r got c h enough =
    let (k, bs, c1) = read r c in
    let same : suc (fuel + extra) ≡ suc fuel + extra = omega arith in
    subst (λ n. read_loop n len r got c ≡ read_loop (suc fuel) len r got c) same
      (under_if (is_closed k) _ _ _ (λ goes_on.
        under_if (r - k == 0) _ _ _
          (λ more. more_fuel fuel extra len (r - k) (got ++ bs) c1 (ground arith) (ground arith))))

-- On any connection, with errors or closed, reading a positive int number of bytes ends within one
-- round per byte: more rounds never change what is returned, stored and left.
pub read_stream_ends :
    (len extra : ℕ) (c : Connection)
    → 0 < len
    → len < 2 ^ 31
    → read_stream len c ≡ read_loop (len + extra) len len [] c
unfolding read_stream
read_stream_ends len extra c h small =
    unless _ (is_closed_lem len h small) (sym (more_fuel len extra len len [] c h (omega arith)))
