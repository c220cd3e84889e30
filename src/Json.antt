-- ===== src/Json.antt =====
-- jsoncpp and nghttp2, which the functions use for their HTTP requests, and the conversions of
-- src/rest_utils.cpp (`touint64`, `touint`, `toint`), which keep the number.
pub mod Examples
use Prim.Native.String.{String}
use text.Mathlib.Text.{◌==◌}
use g_core_rest_sba.Base.{
  ℕ, ◌^◌, ◌≡◌, Bool, true, false, Option, some, List, ◌∷◌, Bytes, ltb, if◌then◌else◌,
}
use g_core_rest_sba.Base.Stop.{Result, ok, stop, out_of_range}

-- What the program uses of `Json::Value`: `v[k] = x` and `v[k].asUInt64()` for numbers,
-- `v[k].asString()` for texts, arrays of numbers, `asBool` for truth values, `isMember`, and `FastWriter` with `Reader` on texts, two of
-- which are the empty one and "{}". A member that is not there reads as zero.
pub record Json : Type 1 where
  pub Value : Type 0
  pub null : Value
  pub set_num : Value → String → ℕ → Value
  pub set_text : Value → String → Bytes → Value
  pub set_nums : Value → String → List ℕ → Value
  pub set_bool : Value → String → Bool → Value
  pub has : Value → String → Bool
  pub num : Value → String → ℕ
  pub text : Value → String → Bytes
  pub nums : Value → String → List ℕ
  pub bool : Value → String → Bool
  pub Text : Type 0
  pub no_text : Text
  pub braces : Text
  pub is_empty : Text → Bool
  pub write : Value → Text
  pub parse : Text → Option Value
  pub num_null : (k : String) → num null k ≡ 0
  pub num_set_num :
      (v : Value) (k : String) (x : ℕ) (j : String)
      → num (set_num v k x) j ≡ (if k == j then x else num v j)
  pub num_set_text :
      (v : Value) (k : String) (s : Bytes) (j : String)
      → (k == j) ≡ false
      → num (set_text v k s) j ≡ num v j
  pub num_set_nums :
      (v : Value) (k : String) (xs : List ℕ) (j : String)
      → (k == j) ≡ false
      → num (set_nums v k xs) j ≡ num v j
  pub text_set_text :
      (v : Value) (k : String) (s : Bytes) (j : String)
      → text (set_text v k s) j ≡ (if k == j then s else text v j)
  pub text_set_num :
      (v : Value) (k : String) (x : ℕ) (j : String)
      → (k == j) ≡ false
      → text (set_num v k x) j ≡ text v j
  pub nums_set_nums :
      (v : Value) (k : String) (xs : List ℕ) (j : String)
      → nums (set_nums v k xs) j ≡ (if k == j then xs else nums v j)
  pub nums_set_num :
      (v : Value) (k : String) (x : ℕ) (j : String)
      → (k == j) ≡ false
      → nums (set_num v k x) j ≡ nums v j
  pub bool_null : (k : String) → bool null k ≡ false
  pub bool_set_bool :
      (v : Value) (k : String) (b : Bool) (j : String)
      → bool (set_bool v k b) j ≡ (if k == j then b else bool v j)
  pub num_set_bool :
      (v : Value) (k : String) (b : Bool) (j : String)
      → (k == j) ≡ false
      → num (set_bool v k b) j ≡ num v j
  pub text_set_bool :
      (v : Value) (k : String) (b : Bool) (j : String)
      → (k == j) ≡ false
      → text (set_bool v k b) j ≡ text v j
  pub text_set_nums :
      (v : Value) (k : String) (xs : List ℕ) (j : String)
      → (k == j) ≡ false
      → text (set_nums v k xs) j ≡ text v j
  pub nums_set_bool :
      (v : Value) (k : String) (b : Bool) (j : String)
      → (k == j) ≡ false
      → nums (set_bool v k b) j ≡ nums v j
  pub nums_set_text :
      (v : Value) (k : String) (s : Bytes) (j : String)
      → (k == j) ≡ false
      → nums (set_text v k s) j ≡ nums v j
  pub has_null : (k : String) → has null k ≡ false
  pub has_set_num :
      (v : Value) (k : String) (x : ℕ) (j : String)
      → has (set_num v k x) j ≡ (if k == j then true else has v j)
  pub has_set_text :
      (v : Value) (k : String) (s : Bytes) (j : String)
      → has (set_text v k s) j ≡ (if k == j then true else has v j)
  pub has_set_nums :
      (v : Value) (k : String) (xs : List ℕ) (j : String)
      → has (set_nums v k xs) j ≡ (if k == j then true else has v j)
  pub has_set_bool :
      (v : Value) (k : String) (b : Bool) (j : String)
      → has (set_bool v k b) j ≡ (if k == j then true else has v j)
  pub parse_write : (v : Value) → parse (write v) ≡ some v
  pub write_some : (v : Value) → is_empty (write v) ≡ false

-- `v[k].asUInt()` and `v[k].asInt()` throw when the number is too large.
abbrev pub as_uint : (J : Json) → J.Value → String → Result ℕ
as_uint J v k = let n = J.num v k in if ltb n (2 ^ 32) then ok n else stop out_of_range

abbrev pub as_int : (J : Json) → J.Value → String → Result ℕ
as_int J v k = let n = J.num v k in if ltb n (2 ^ 31) then ok n else stop out_of_range

-- `if (v.isMember(k)) x = v[k].as...();` on an `x` that holds `old`.
module _ (J : Json) (v : J.Value) (k : String) where
  unfoldable pub num_member : ℕ → ℕ
  num_member old = if J.has v k then J.num v k else old

  unfoldable pub text_member : Bytes → Bytes
  text_member old = if J.has v k then J.text v k else old

  unfoldable pub bool_member : Bool → Bool
  bool_member old = if J.has v k then J.bool v k else old

  unfoldable pub uint_member : ℕ → Result ℕ
  uint_member old = if J.has v k then as_uint J v k else ok old

  unfoldable pub int_member : ℕ → Result ℕ
  int_member old = if J.has v k then as_int J v k else ok old
