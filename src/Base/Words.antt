-- ===== src/Base/Words.antt =====
-- Unsigned machine words: a value stored in a `uintN_t` is reduced modulo 2 ^ N.
use Prim.Native.Nat.{ℕ, ◌%◌, ◌^◌, ◌<◌}
use mathlib.Core.Path.{◌≡◌}
use native.Mathlib.Omega.{arith}

abbrev pub u8 : ℕ → ℕ
u8 x = x % 2 ^ 8

abbrev pub u16 : ℕ → ℕ
u16 x = x % 2 ^ 16

abbrev pub u32 : ℕ → ℕ
u32 x = x % 2 ^ 32

abbrev pub u64 : ℕ → ℕ
u64 x = x % 2 ^ 64

pub u32_small : (x : ℕ) → x < 2 ^ 32 → u32 x ≡ x
u32_small x h = omega arith

pub u64_small : (x : ℕ) → x < 2 ^ 64 → u64 x ≡ x
u64_small x h = omega arith
