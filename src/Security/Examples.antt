-- ===== src/Security/Examples.antt =====
-- Protected messages at concrete inputs, over an OpenSSL whose digest is a sum and whose cipher only
-- pads.
use g_core_rest_sba.Base.{
  ℕ, suc, ◌+◌, ◌-◌, ◌%◌, ◌≡◌, refl, Bool, true, Option, none, some, [], ◌∷◌, ◌++◌, ◌↔◌, ◌≤◌, ap,
  Bytes, arith, length, drop, replicate, length-append, length-replicate, drop-append, map,
}
use g_core_rest_sba.Base.Stop.{ok, ◌>>=◌}
use g_core_rest_sba.Packet.Buffer.{Packet, deliver}
use g_core_rest_sba.Packet.Codec.{le_bytes, length-le_bytes}
use g_core_rest_sba.Packet.Items.{flag, octet, kind}
use g_core_rest_sba.Packet.Examples.{blank, blank-S1apInRange}
use g_core_rest_sba.Security.Openssl.{Openssl}
use g_core_rest_sba.Security.Crypt.{build_nas, parse_nas, hmac_check}
use g_core_rest_sba.Security.Filled.{filled, filled-Left, Left}
use g_core_rest_sba.Security.Seal.{mac, nas_round_trip, hmac_check_lem}

abbrev pub sum : Bytes → ℕ
sum [] = 0
sum (b ∷ bs) = let rest = sum bs in b + rest

-- The padding, in front: from one to sixteen bytes that each tell their number.
abbrev pub pad : Bytes → Bytes
pad bs = let n = 15 - length bs % 16 in replicate (suc n) (suc n) ++ bs

abbrev pub unpad : Bytes → Option Bytes
unpad [] = none
unpad (b ∷ bs) = some (drop b (b ∷ bs))

pub length-pad : (bs : Bytes) → length (pad bs) ≤ length bs + 16
unfolding replicate
length-pad bs =
    let n : ℕ = 15 - length bs % 16 in
    omega (
      arith,
      length-append (replicate (suc n) (suc n)) bs,
      length-replicate {A = ℕ} (suc n) (suc n),
    )

pub unpad-pad : (bs : Bytes) → unpad (pad bs) ≡ some bs
unfolding replicate
unpad-pad bs =
    let n : ℕ = 15 - length bs % 16 in
    ap some (
      drop-append (suc n) (replicate (suc n) (suc n)) bs
        (omega (arith, length-replicate {A = ℕ} (suc n) (suc n))))

abbrev pub padding : Openssl
padding = record {
  hmac_sha1 = λ k d. le_bytes 20 (sum d);
  encrypt = λ k iv d. pad d;
  decrypt = λ k iv d. unpad d;
  length-hmac_sha1 = λ k d. length-le_bytes 20 (sum d);
  length-encrypt = λ k iv d. length-pad d;
  decrypt-encrypt = λ k iv d. unpad-pad d;
}

nas_round_trip_example :
    (build_nas padding (octet 5 ∷ flag true ∷ []) 2 3 4 11 12 blank >>= λ m.
    parse_nas padding (map kind (octet 5 ∷ flag true ∷ [])) 11 13 (deliver m blank))
    ≡ ok (2, 3, 4, octet 5 ∷ flag true ∷ [])
unfolding le_bytes
nas_round_trip_example =
    nas_round_trip padding blank (octet 5 ∷ flag true ∷ []) 2 3 4 blank-S1apInRange
      (omega arith, (tt, tt)) (omega arith) (omega arith) (omega arith) (omega arith) blank 11 12 11
      13

-- A digest of zeros in front of one byte.
abbrev forged : Packet
forged = filled blank (replicate 20 0 ++ (7 ∷ []))

hmac_check_lem_example :
    (res : Bool) × (q : Packet) × (hmac_check padding forged 5 ≡ ok (res, q))
    × Left q (7 ∷ [])
    × ((res ≡ true) ↔ (mac padding (7 ∷ []) ≡ replicate 20 0))
unfolding replicate
hmac_check_lem_example =
    hmac_check_lem padding forged 5 (replicate 20 0) (7 ∷ []) refl
      (filled-Left blank (replicate 20 0 ++ (7 ∷ [])) (omega arith))
