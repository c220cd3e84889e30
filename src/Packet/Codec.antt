-- ===== src/Packet/Codec.antt =====
-- The bytes of an integer in memory, as `memmove` copies them on a little-endian machine.
use g_core_rest_sba.Base.{
  ℕ, zero, suc, ◌+◌, ◌*◌, ◌/◌, ◌%◌, ◌<◌, ◌≡◌, refl, ap, [], ◌∷◌, arith, Bytes, length,
}

-- `n` bytes, the lowest first.
unfoldable pub le_bytes : ℕ → ℕ → Bytes
le_bytes zero x = []
le_bytes (suc n) x = (x % 256) ∷ le_bytes n (x / 256)

unfoldable pub of_le : Bytes → ℕ
of_le [] = 0
of_le (b ∷ bs) = b + 256 * of_le bs

pub length-le_bytes : (n x : ℕ) → length (le_bytes n x) ≡ n
unfolding le_bytes
length-le_bytes zero x = refl
length-le_bytes (suc n) x = ap suc (length-le_bytes n (x / 256))

-- 256 ^ n by recursion, as the codec spends it.
unfoldable pub byte_range : ℕ → ℕ
byte_range zero = 1
byte_range (suc n) = 256 * byte_range n

pub of_le-le_bytes : (n x : ℕ) → x < byte_range n → of_le (le_bytes n x) ≡ x
unfolding le_bytes of_le byte_range
of_le-le_bytes zero x h = omega arith
of_le-le_bytes (suc n) x h = omega (arith, of_le-le_bytes n (x / 256) (omega arith))
