-- ===== src/Upf/Addresses.antt =====
-- `Upf::set_ip_addrs`: the table that gives each subscriber an address of 172.16.0.0/16.
use g_core_rest_sba.Base.{
  ℕ, zero, suc, ◌+◌, ◌-◌, ◌/◌, ◌%◌, ◌≤◌, ◌<◌, ◌≡◌, refl, ap, ◌∙◌, sym, false, ◌&&◌, none, some,
  List, [], ◌∷◌, ◌++◌, map, drop, ◌*◌, arith, Bytes, codes, ltb, leb, ◌==◌, if◌then◌else◌,
}
use g_core_rest_sba.Base.Map.{Map, empty, put}
use g_core_rest_sba.Telecom.Decimal.{
  to_string, digits, of_digits, pow10, AllDigits, digits-AllDigits, of_digits-digits,
}

abbrev pub max_ue_count : ℕ
max_ue_count = 10000

abbrev pub first_imsi : ℕ
first_imsi = 119000000000

-- The characters of a number's digits.
abbrev pub chars : ℕ → Bytes
chars n = map (λ d. d + 48) (to_string n)

-- `"172.16." + to_string(subnet) + "." + to_string(host)`.
unfoldable pub ip_text : ℕ → ℕ → Bytes
ip_text subnet host = codes "172.16." ++ (chars subnet ++ (46 ∷ chars host))

-- The loop, with the rounds that are left.
set_ip_addrs_loop : ℕ → ℕ → ℕ → ℕ → Map ℕ Bytes → Map ℕ Bytes
set_ip_addrs_loop zero i subnet host plan = plan
set_ip_addrs_loop (suc rounds) i subnet host plan =
    set_ip_addrs_loop rounds (i + 1) (if host == 254 then subnet + 1 else subnet)
      (if host == 254 then 3 else host + 1) (put plan (first_imsi + i) (ip_text subnet host))

unfoldable pub set_ip_addrs : Map ℕ Bytes → Map ℕ Bytes
unfolding set_ip_addrs_loop
set_ip_addrs plan = set_ip_addrs_loop max_ue_count 0 1 3 plan

-- The address of the subscriber number `i`, in closed form: 252 hosts to a subnet.
abbrev pub address : ℕ → Bytes
address i = ip_text (1 + i / 252) (3 + i % 252)

loop_lem :
    (rounds i subnet host : ℕ) (plan : Map ℕ Bytes) (k : ℕ)
    → subnet ≡ 1 + i / 252
    → host ≡ 3 + i % 252
    → set_ip_addrs_loop rounds i subnet host plan k ≡ (
        if leb (first_imsi + i) k && ltb k (first_imsi + i + rounds)
        then some (address (k - first_imsi))
        else plan k)
unfolding set_ip_addrs_loop
loop_lem zero i subnet host plan k es eh = ground arith
loop_lem (suc rounds) i subnet host plan k es eh =
    let ih =
      loop_lem rounds (i + 1) (if host == 254 then subnet + 1 else subnet)
        (if host == 254 then 3 else host + 1) (put plan (first_imsi + i) (ip_text subnet host)) k
        (ground arith) (ground arith) in
    ih ∙ ground arith

-- The plan that the constructor builds gives the 10000 subscribers from 119000000000 on the
-- addresses in order, and nobody else one.
pub set_ip_addrs_lem :
    (k : ℕ)
    → set_ip_addrs empty k ≡ (
        if leb first_imsi k && ltb k (first_imsi + max_ue_count)
        then some (address (k - first_imsi))
        else none)
unfolding set_ip_addrs
set_ip_addrs_lem k = loop_lem max_ue_count 0 1 3 empty k (omega arith) (omega arith)

-- Reading an address: a number up to a dot or the end.
read_num : ℕ → Bytes → ℕ × Bytes
read_num acc [] = (acc, [])
read_num acc (b ∷ bs) = if b == 46 then (acc, bs) else read_num (acc * 10 + (b - 48)) bs

abbrev read_ip : Bytes → ℕ × ℕ
read_ip ip = let (subnet, rest) = read_num 0 (drop 7 ip) in (subnet, (read_num 0 rest).0)

no_dot : (d : ℕ) → d < 10 → (d + 48 == 46) ≡ false
no_dot d h = ground arith

read_num-dot :
    (acc : ℕ) (ds : List ℕ) (rest : Bytes)
    → AllDigits ds
    → read_num acc (map (λ d. d + 48) ds ++ (46 ∷ rest)) ≡ (of_digits acc ds, rest)
unfolding read_num of_digits
read_num-dot acc [] rest h = refl
read_num-dot acc (d ∷ ds) rest h =
    ap
      (λ b.
        if b
        then (acc, map (λ d. d + 48) ds ++ (46 ∷ rest))
        else read_num (acc * 10 + (d + 48 - 48)) (map (λ d. d + 48) ds ++ (46 ∷ rest)))
      (no_dot d h.0)
    ∙ ap (λ n. read_num n (map (λ d. d + 48) ds ++ (46 ∷ rest))) {y = acc * 10 + d} (omega arith)
    ∙ read_num-dot (acc * 10 + d) ds rest h.1

read_num-end :
    (acc : ℕ) (ds : List ℕ)
    → AllDigits ds
    → read_num acc (map (λ d. d + 48) ds) ≡ (of_digits acc ds, [])
unfolding read_num of_digits
read_num-end acc [] h = refl
read_num-end acc (d ∷ ds) h =
    ap
      (λ b.
        if b
        then (acc, map (λ d. d + 48) ds)
        else read_num (acc * 10 + (d + 48 - 48)) (map (λ d. d + 48) ds))
      (no_dot d h.0)
    ∙ ap (λ n. read_num n (map (λ d. d + 48) ds)) {y = acc * 10 + d} (omega arith)
    ∙ read_num-end (acc * 10 + d) ds h.1

read_ip-ip_text :
    (subnet host : ℕ)
    → subnet < pow10 20
    → host < pow10 20
    → read_ip (ip_text subnet host) ≡ (subnet, host)
unfolding ip_text
read_ip-ip_text subnet host hs hh =
    rw (read_num-dot 0 (digits 20 subnet) (chars host) (digits-AllDigits 20 subnet)) (
      rw (read_num-end 0 (digits 20 host) (digits-AllDigits 20 host)) (
        rw
          (of_digits-digits 20 subnet (omega arith) hs, of_digits-digits 20 host (omega arith) hh)))

-- Two subscribers of the plan never share an address.
pub address-injective :
    (i j : ℕ) → i < max_ue_count → j < max_ue_count → address i ≡ address j → i ≡ j
address-injective i j hi hj e =
    let p =
      sym (
        read_ip-ip_text (1 + i / 252) (3 + i % 252) (bound (1 + i / 252) (omega arith))
          (bound (3 + i % 252) (omega arith)))
      ∙ ap read_ip e
      ∙ read_ip-ip_text (1 + j / 252) (3 + j % 252) (bound (1 + j / 252) (omega arith))
          (bound (3 + j % 252) (omega arith)) in
    omega (arith, ap (λ (x : ℕ × ℕ). x.0) p, ap (λ (x : ℕ × ℕ). x.1) p)
  where
    bound : (n : ℕ) → n < 10000 → n < pow10 20
    bound n h = unfold pow10 in omega arith

-- A subscriber with an address is in the plan.
planned :
    (k : ℕ) (ip : Bytes)
    → set_ip_addrs empty k ≡ some ip
    → (first_imsi ≤ k) × (k - first_imsi < max_ue_count) × (address (k - first_imsi) ≡ ip)
planned k ip e = ground (arith, set_ip_addrs_lem k)

-- In the plan that the constructor builds no two subscribers have the same address.
pub plan-injective :
    (j k : ℕ) (ip : Bytes) → set_ip_addrs empty j ≡ some ip → set_ip_addrs empty k ≡ some ip → j ≡ k
plan-injective j k ip e f =
    let (lo, hi, a) = planned j ip e in
    let (lo', hi', b) = planned k ip f in
    omega (arith, address-injective (j - first_imsi) (k - first_imsi) hi hi' (a ∙ sym b))
