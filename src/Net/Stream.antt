-- ===== src/Net/Stream.antt =====
-- The connections of src/sctp_server.cpp and src/sctp_client.cpp.
use g_core_rest_sba.Base.{
  ℕ, ◌^◌, ◌<◌, ◌≡◌, Bool, true, false, ◌==◌, leb, if◌then◌else◌, lt→leb_false, arith, unless,
}

-- `pkt.len <= 0` on a length that is an `int`: nothing was received.
abbrev pub is_closed : ℕ → Bool
is_closed len = if len == 0 then true else leb (2 ^ 31) len

positive : (n : ℕ) → 0 < n → (n == 0) ≡ false
positive n h = ground arith

pub is_closed_lem : (n : ℕ) → 0 < n → n < 2 ^ 31 → is_closed n ≡ false
is_closed_lem n h k = unless true (positive n h) (lt→leb_false (2 ^ 31) n k)
