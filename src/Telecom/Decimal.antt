-- ===== src/Telecom/Decimal.antt =====
-- `std::to_string` and `std::stoull` on unsigned 64-bit numbers. A text of digits is the list of
-- the digits' values; its characters are these plus 48.
use native.Mathlib.Nat.{add-mul-mod_self_left, mod-eq_of_lt, mod-lt, div-add-mod}
use g_core_rest_sba.Base.{
  ℕ, zero, suc, ◌+◌, ◌*◌, ◌/◌, ◌%◌, ◌^◌, ◌≤◌, ◌<◌, ◌≡◌, refl, ◌∙◌, List, [], ◌∷◌, ◌++◌, arith, ltb,
  ltb→lt, Bool-cases, inl, inr, false, if◌then◌else◌,
}
use g_core_rest_sba.Base.Stop.{Result, ok, stop, out_of_range}

unfoldable pub digits : ℕ → ℕ → List ℕ
digits zero n = []
digits (suc fuel) n =
    let rest = digits fuel (n / 10) ++ (n % 10) ∷ [] in if ltb n 10 then n ∷ [] else rest

-- A 64-bit number has at most twenty digits.
abbrev pub to_string : ℕ → List ℕ
to_string n = digits 20 n

unfoldable pub of_digits : ℕ → List ℕ → ℕ
of_digits acc [] = acc
of_digits acc (d ∷ ds) = of_digits (acc * 10 + d) ds

-- `stoull` throws on an empty text and beyond 2 ^ 64 - 1.
unfoldable pub stoull : List ℕ → Result ℕ
stoull [] = stop out_of_range
stoull (d ∷ ds) = let n = of_digits 0 (d ∷ ds) in if ltb n (2 ^ 64) then ok n else stop out_of_range

-- `k` digits, with leading zeros.
unfoldable pub pad : ℕ → ℕ → List ℕ
pad zero n = []
pad (suc k) n = pad k (n / 10) ++ (n % 10) ∷ []

unfoldable pub pow10 : ℕ → ℕ
pow10 zero = 1
pow10 (suc k) = 10 * pow10 k

pow10_pos : (k : ℕ) → 0 < pow10 k
unfolding pow10
pow10_pos zero = omega arith
pow10_pos (suc k) = omega (arith, pow10_pos k)

-- A number between two powers of ten has the digits of that width.
pub digits-pad :
    (fuel k n : ℕ) → k < fuel → pow10 k ≤ n → n < 10 * pow10 k → digits fuel n ≡ pad (suc k) n
unfolding digits pad pow10
digits-pad zero k n h lo hi = absurd (omega arith)
digits-pad (suc fuel) zero n h lo hi = ground arith
digits-pad (suc fuel) (suc k) n h lo hi = ground (arith, pow10_pos k, digits-pad fuel k (n / 10))

pub of_digits-append :
    (acc : ℕ) (xs ys : List ℕ) → of_digits acc (xs ++ ys) ≡ of_digits (of_digits acc xs) ys
unfolding of_digits
of_digits-append acc [] ys = refl
of_digits-append acc (x ∷ xs) ys = of_digits-append (acc * 10 + x) xs ys

-- The remainder is the one number below the divisor that leaves a multiple.
mod_unique : (n m q r : ℕ) → n ≡ r + m * q → r < m → n % m ≡ r
mod_unique n m q r e h = rw e (add-mul-mod_self_left r m q ∙ mod-eq_of_lt h)

-- The last digit and the remainder of the rest make the remainder of the whole.
mod-tens : (n p : ℕ) → 0 < p → n % (10 * p) ≡ n / 10 % p * 10 + n % 10
mod-tens n p h =
    mod_unique n (10 * p) (n / 10 / p) (n / 10 % p * 10 + n % 10)
      (omega (arith, div-add-mod (n / 10) p)) (omega (arith, mod-lt (n / 10) h))

pub of_digits-pad : (acc k n : ℕ) → of_digits acc (pad k n) ≡ acc * pow10 k + n % pow10 k
unfolding pad pow10 of_digits
of_digits-pad acc zero n = omega arith
of_digits-pad acc (suc k) n =
    of_digits-append acc (pad k (n / 10)) ((n % 10) ∷ [])
    ∙ omega (arith, of_digits-pad acc k (n / 10), mod-tens n (pow10 k) (pow10_pos k))

-- Writing a number and reading it back.
pub of_digits-digits : (fuel n : ℕ) → 0 < fuel → n < pow10 fuel → of_digits 0 (digits fuel n) ≡ n
unfolding digits of_digits pow10
of_digits-digits zero n pos h = absurd (omega arith)
of_digits-digits (suc fuel) n pos h = elim (Bool-cases (ltb n 10)) [
  | inl small ↦ rw small (omega arith)
  | inr large ↦ rw large (
      of_digits-append 0 (digits fuel (n / 10)) ((n % 10) ∷ [])
      ∙ more fuel n (of_digits-digits fuel (n / 10)) large h)
]
  where
    more :
        (fuel n : ℕ)
        → (0 < fuel → n / 10 < pow10 fuel → of_digits 0 (digits fuel (n / 10)) ≡ n / 10)
        → ltb n 10 ≡ false
        → n < 10 * pow10 fuel
        → of_digits 0 (digits fuel (n / 10)) * 10 + n % 10 ≡ n
    more zero n ih large h = absurd (ground arith)
    more (suc fuel) n ih large h = omega (arith, ih (omega arith) (omega arith))

-- Digits are below ten.
abbrev pub AllDigits : List ℕ → Type 0
AllDigits [] = Unit
AllDigits (d ∷ ds) = (d < 10) × AllDigits ds

AllDigits-append : (xs ys : List ℕ) → AllDigits xs → AllDigits ys → AllDigits (xs ++ ys)
AllDigits-append [] ys g h = h
AllDigits-append (x ∷ xs) ys g h = (g.0, AllDigits-append xs ys g.1 h)

pub digits-AllDigits : (fuel n : ℕ) → AllDigits (digits fuel n)
unfolding digits
digits-AllDigits zero n = tt
digits-AllDigits (suc fuel) n = elim (Bool-cases (ltb n 10)) [
  | inl small ↦ rw small (ltb→lt n 10 small, tt)
  | inr large ↦ rw large (
      AllDigits-append (digits fuel (n / 10)) ((n % 10) ∷ []) (digits-AllDigits fuel (n / 10))
        (omega arith, tt))
]
