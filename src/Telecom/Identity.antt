-- ===== src/Telecom/Identity.antt =====
-- The identities of a UE and of the AMF, all made by writing two numbers one after the other.
use native.Mathlib.Nat.{mod-eq_of_lt}
use g_core_rest_sba.Base.{
  suc, ℕ, ◌+◌, ◌*◌, ◌^◌, ◌≤◌, ◌<◌, ◌≡◌, refl, ap, ◌∙◌, List, [], ◌∷◌, ◌++◌, arith, leb,
  if◌then◌else◌, length, drop, length-append,
}
use g_core_rest_sba.Base.Words.{u16, u32, u64, u64_small, u32_small}
use g_core_rest_sba.Base.Stop.{Result, ok, stop, out_of_range, ◌>>=◌, bind_ok}
use g_core_rest_sba.Telecom.Decimal.{
  to_string, digits, stoull, of_digits, pad, pow10, digits-pad, of_digits-append, of_digits-pad,
}

-- `stoull(to_string(a) + to_string(b))`.
unfoldable pub join : ℕ → ℕ → Result ℕ
join a b = stoull (to_string a ++ to_string b)

-- `Telecom::get_plmn_id`, `get_mmei`, `get_gummei`, `get_imsi` and `get_guti`.
unfoldable pub get_plmn_id : ℕ → ℕ → Result ℕ
get_plmn_id mcc mnc = do n ← join mcc mnc; ok (u16 n)

unfoldable pub get_mmei : ℕ → ℕ → Result ℕ
get_mmei mmegi mmec = do n ← join mmegi mmec; ok (u32 n)

unfoldable pub get_gummei : ℕ → ℕ → Result ℕ
get_gummei plmn_id mmei = join plmn_id mmei

unfoldable pub get_imsi : ℕ → ℕ → Result ℕ
get_imsi plmn_id msisdn = join plmn_id msisdn

unfoldable pub get_guti : ℕ → ℕ → Result ℕ
get_guti gummei m_tmsi = join gummei m_tmsi

-- `AmfIds::AmfIds`.
pub record AmfIds : Type 0 where
  pub mcc : ℕ
  pub mnc : ℕ
  pub plmn_id : ℕ
  pub amfgi : ℕ
  pub amfc : ℕ
  pub amfi : ℕ
  pub guamfi : ℕ

unfoldable pub amf_ids : Result AmfIds
unfolding get_plmn_id get_mmei get_gummei
amf_ids = do
  plmn_id ← get_plmn_id 1 1
  amfi ← get_mmei 1 1
  guamfi ← get_gummei plmn_id amfi
  ok (record {
    mcc = 1;
    mnc = 1;
    plmn_id = plmn_id;
    amfgi = 1;
    amfc = 1;
    amfi = amfi;
    guamfi = guamfi;
  })

-- `Amf::get_s11cteidamf`, and `Smf::get_s11cteidmme` with it: the digits of the GUTI after the
-- seventh. `substr` throws when there are fewer than seven.
unfoldable pub get_s11cteidamf : ℕ → Result ℕ
get_s11cteidamf guti =
    let tem = to_string guti in
    if leb 7 (length tem) then (do n ← stoull (drop 7 tem); ok (u32 n)) else stop out_of_range

-- The subscriber's number and the IMSI that `RanContext::init` gives to simulated UE `arg`.
unfoldable pub ran_imsi : ℕ → Result ℕ
unfolding get_plmn_id get_imsi
ran_imsi arg = do plmn_id ← get_plmn_id 1 1; get_imsi plmn_id (u64 (9000000000 + arg))

-- Numbers written with a known count of digits.
to_string-pad : (k n : ℕ) → k < 20 → pow10 k ≤ n → n < 10 * pow10 k → to_string n ≡ pad (suc k) n
to_string-pad k n = digits-pad 20 k n

stoull_lem :
    (ds : List ℕ) (c : ℕ) → 0 < length ds → of_digits 0 ds ≡ c → c < 2 ^ 64 → stoull ds ≡ ok c
unfolding stoull
stoull_lem [] c h e small = absurd (omega arith)
stoull_lem (d ∷ ds) c h e small = ground arith

value :
    (a k b c : ℕ) → b < 10 * pow10 k → a * (10 * pow10 k) + b ≡ c → of_digits a (pad (suc k) b) ≡ c
value a k b c hi e =
    of_digits-pad a (suc k) b
    ∙ (unfold pow10 in omega (arith, mod-eq_of_lt {n = b} {m = 10 * pow10 k} hi, e))

-- Writing a number of `k + 1` digits behind another multiplies the first by 10 ^ (k + 1).
pub join_lem :
    (a b k c : ℕ)
    → k < 20
    → pow10 k ≤ b
    → b < 10 * pow10 k
    → of_digits 0 (to_string a) ≡ a
    → a * (10 * pow10 k) + b ≡ c
    → c < 2 ^ 64
    → 0 < length (to_string a)
    → join a b ≡ ok c
unfolding join
join_lem a b k c hk lo hi ha e small nonempty =
    stoull_lem (to_string a ++ to_string b) c
      (omega (arith, length-append (to_string a) (to_string b)))
      (of_digits-append 0 (to_string a) (to_string b)
        ∙ (rw (ha, to_string-pad k b hk lo hi) (value a k b c hi e)))
      small

-- The plan of the identities: UE `arg` has IMSI 119000000000 + arg.
pub ran_imsi_lem : (arg : ℕ) → arg < 1000000000 → ran_imsi arg ≡ ok (119000000000 + arg)
unfolding ran_imsi join stoull of_digits digits
ran_imsi_lem arg h =
    ap (get_imsi 11) (u64_small (9000000000 + arg) (omega arith))
    ∙ (unfold get_imsi in
        join_lem 11 (9000000000 + arg) 9 (119000000000 + arg) (omega arith)
          (unfold pow10 in omega arith) (unfold pow10 in omega arith) refl
          (unfold pow10 in omega arith) (omega arith) (omega arith))

abbrev pub ids : AmfIds
ids = record { mcc = 1; mnc = 1; plmn_id = 11; amfgi = 1; amfc = 1; amfi = 11; guamfi = 1111 }

pub amf_ids_lem : amf_ids ≡ ok ids
unfolding amf_ids join stoull of_digits digits
amf_ids_lem = refl

pub get_guti_lem :
    (arg : ℕ) → arg < 1000000000 → get_guti 1111 (119000000000 + arg) ≡ ok (1111119000000000 + arg)
unfolding get_guti of_digits digits
get_guti_lem arg h =
    join_lem 1111 (119000000000 + arg) 11 (1111119000000000 + arg) (omega arith)
      (unfold pow10 in omega arith) (unfold pow10 in omega arith) refl (unfold pow10 in omega arith)
      (omega arith) (omega arith)

-- The last nine digits of the GUTI are the UE's number.
pub get_s11cteidamf_lem :
    (arg : ℕ) → arg < 1000000000 → get_s11cteidamf (1111119000000000 + arg) ≡ ok arg
unfolding get_s11cteidamf
get_s11cteidamf_lem arg h =
    let g = 1111119000000000 + arg in
    rw
      (to_string-pad 15 g (omega arith) (unfold pow10 in omega arith) (unfold pow10 in omega arith))
      (unfold pad in
        bind_ok _
          (stoull_lem (pad 9 g) arg (omega arith)
            (of_digits-pad 0 9 g ∙ (unfold pow10 in omega arith)) (omega arith))
          (ap ok (u32_small arg (omega arith))))

-- The TEID that the AMF derives for simulated UE number `arg`, from the IMSI that the UE reports
-- and the AMF's own identity.
abbrev pub teid_of_ue : ℕ → Result ℕ
teid_of_ue arg = do
  imsi ← ran_imsi arg
  a ← amf_ids
  guti ← get_guti a.guamfi imsi
  get_s11cteidamf guti

-- For every UE number below 10 ^ 9 the control-plane TEID that the AMF derives is the number.
pub teid_of_ue_lem : (arg : ℕ) → arg < 1000000000 → teid_of_ue arg ≡ ok arg
teid_of_ue_lem arg h =
    bind_ok _ (ran_imsi_lem arg h)
      (bind_ok _ amf_ids_lem (bind_ok _ (get_guti_lem arg h) (get_s11cteidamf_lem arg h)))
