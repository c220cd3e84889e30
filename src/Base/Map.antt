-- ===== src/Base/Map.antt =====
-- `std::unordered_map` with keys compared by a Boolean test: the function that `find` computes.
use mathlib.Core.Bool.{Bool, true, false}
use mathlib.Core.Option.{Option, none, some}
use g_core_rest_sba.Base.Tests.{if◌then◌else◌, ◌==◌, Bytes, bytes_eq}
use Prim.Native.Nat.{ℕ}
use mathlib.Core.Path.{◌≡◌}
use native.Mathlib.Omega.{arith}

abbrev pub Map {ℓ κ} : Type ℓ → Type κ → Type (ℓ ⊔ κ)
Map K V = K → Option V

abbrev pub empty {ℓ κ} : {K : Type ℓ} {V : Type κ} → Map K V
empty k = none

-- `m[k] = v` and `m.erase(k)`, for integer keys and for string keys.
abbrev pub put {ℓ} : {V : Type ℓ} → Map ℕ V → ℕ → V → Map ℕ V
put m k v j = if k == j then some v else m j

abbrev pub erase {ℓ} : {V : Type ℓ} → Map ℕ V → ℕ → Map ℕ V
erase m k j = if k == j then none else m j

abbrev pub put_str {ℓ} : {V : Type ℓ} → Map Bytes V → Bytes → V → Map Bytes V
put_str m k v j = if bytes_eq k j then some v else m j

abbrev pub erase_str {ℓ} : {V : Type ℓ} → Map Bytes V → Bytes → Map Bytes V
erase_str m k j = if bytes_eq k j then none else m j

-- `m.find(k) != m.end()`.
abbrev pub has {ℓ} : {V : Type ℓ} → Option V → Bool
has none = false
has (some v) = true

-- The value of `m[k]`, where `fresh` is what the operator creates for a missing key.
abbrev pub get_or {ℓ} : {V : Type ℓ} → Option V → V → V
get_or none fresh = fresh
get_or (some v) fresh = v

-- A lookup of the key that was written.
pub put_get {ℓ} : {V : Type ℓ} (m : Map ℕ V) (k : ℕ) (x : V) → put m k x k ≡ some x
put_get m k x = ground arith
