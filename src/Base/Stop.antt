-- ===== src/Base/Stop.antt =====
-- How a handler ends other than by returning (src/utils.cpp), and the monad of such code.
use mathlib.Core.Path.{◌≡◌, refl, ap, ◌∙◌}
use mathlib.Core.Bool.{Bool, true, false}

-- `overrun` is an access outside a 1024-byte packet buffer, which C++ leaves undefined. The others
-- are calls of `Utils::handle_type1_error` with a negative argument: the process exits.
pub data Stop : Type 0 where
  overrun no_row zero_imsi no_uectx bad_itf bad_protocol zero_guti hmac_failure bad_length
        out_of_range crypt_error :
      Stop

pub data Result {ℓ} (A : Type ℓ) : Type ℓ where
  ok : A → Result A
  stop : Stop → Result A

-- The rest of a handler runs on what the call returned, and not at all after a stop.
infixl 5 ◌>>=◌ ◌>>◌
abbrev pub ◌>>=◌ {κ ℓ} : {B : Type κ} {A : Type ℓ} → Result A → (A → Result B) → Result B
stop why >>= rest = stop why
ok a >>= rest = rest a

-- `if (bad) g_utils.handle_type1_error(-1, ...)`.
abbrev pub stop_if : Bool → Stop → Result (Unit {0})
stop_if true e = stop e
stop_if false e = ok tt

abbrev pub ◌>>◌ {ℓ} : {A : Type ℓ} → Result (Unit {0}) → Result A → Result A
stop why >> rest = stop why
ok _ >> rest = rest

-- A chain of calls that return, one link at a time.
pub bind_ok {ℓ κ} :
    {A : Type ℓ} {B : Type κ} {m : Result A} {a : A} (f : A → Result B) {r : Result B}
    → m ≡ ok a
    → f a ≡ r
    → (m >>= f) ≡ r
bind_ok f e g = ap (λ m. m >>= f) e ∙ g

-- A chain of calls whose first stops.
pub bind_stop {ℓ κ} :
    {A : Type ℓ} {B : Type κ} {m : Result A} {why : Stop} (f : A → Result B)
    → m ≡ stop why
    → (m >>= f) ≡ stop why
bind_stop f e = ap (λ m. m >>= f) e

-- A chain that returned: what its first call returned, and that the rest returned.
pub bind_inv {κ ℓ} :
    {B : Type κ} {A : Type ℓ} (call : Result A) (rest : A → Result B) {done : B}
    → (call >>= rest) ≡ ok done
    → (mid : A) × (call ≡ ok mid) × (rest mid ≡ ok done)
bind_inv (stop why) rest h = cc
bind_inv (ok mid) rest h = (mid, refl, h)

-- The same, as a step of a proof: what it is about may be any result of the first call.
pub bind_case {κ ℓ μ} :
    {B : Type κ} {A : Type ℓ} {C : Type μ} (call : Result A) (rest : A → Result B) {done : B}
    → (call >>= rest) ≡ ok done
    → ((mid : A) → call ≡ ok mid → rest mid ≡ ok done → C)
    → C
bind_case call rest h next = let (mid, e, f) = bind_inv call rest h in next mid e f

-- A test that does not stop.
pub pass {ℓ} :
    {A : Type ℓ} {b : Bool} {rest result : Result A} (why : Stop)
    → b ≡ false
    → rest ≡ result
    → (stop_if b why >> rest) ≡ result
pass why h k = rw h k
