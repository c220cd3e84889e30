-- ===== src/Amf/Numbers.antt =====
-- The tables of src/amf.cpp over any sequence of packets: the numbers of the UEs, and the local
-- contexts.
use g_core_rest_sba.Base.{
  ℕ, ◌+◌, ◌<◌, ◌≤◌, ◌≡◌, refl, sym, ap, ◌∙◌, subst, inl, inr, true, Option, none, some, arith, ◌==◌,
  if◌then◌else◌, Bool-cases, Option-cases, Bytes,
}
use g_core_rest_sba.Base.Map.{put, get_or}
use g_core_rest_sba.Amf.State.{
  Amf, UeContext, new_local, new_amf, local, set_local, rem_s1amf_id, rem_local,
}
use g_core_rest_sba.Telecom.Identity.{AmfIds}

-- A context that knows no tunnel.
abbrev pub NoTunnel : UeContext → Type 0
NoTunnel c = (c.s11_cteid_upf ≡ 0) × (c.s1_uteid_ul ≡ 0)

-- At most `count` numbers were given out, those in use among them, and no local context knows a
-- tunnel.
pub record Sound (count : ℕ) (a : Amf) : Type 0 where
  pub counted : a.ue_count ≤ count
  pub numbered : (mme guti : ℕ) → a.s1amf_id mme ≡ some guti → (0 < mme) × (mme ≤ a.ue_count)
  pub blank : (guti : ℕ) (c : UeContext) → a.ue_ctx guti ≡ some c → NoTunnel c

pub new_amf-Sound : (ids : AmfIds) (ran upf : Bytes) (junk : ℕ) → Sound 0 (new_amf ids ran upf junk)
unfolding new_amf
new_amf-Sound ids ran upf junk = record {
  counted = omega arith;
  numbered = λ mme guti e. cc;
  blank = λ guti c e. cc;
}

NoTunnel-get_or :
    (o : Option UeContext) (c : UeContext)
    → ((d : UeContext) → o ≡ some d → NoTunnel d)
    → NoTunnel c
    → NoTunnel (get_or o c)
NoTunnel-get_or none c h k = k
NoTunnel-get_or (some d) c h k = h d refl

pub local-NoTunnel : {n : ℕ} (a : Amf) (guti : ℕ) → Sound n a → NoTunnel (local a guti)
unfolding local new_local
local-NoTunnel a guti h =
    NoTunnel-get_or (a.ue_ctx guti) (new_local a.junk) (h.blank guti) (refl, refl)

put_blank :
    (m : ℕ → Option UeContext) (guti : ℕ) (c : UeContext)
    → ((g : ℕ) (d : UeContext) → m g ≡ some d → NoTunnel d)
    → NoTunnel c
    → (g : ℕ) (d : UeContext) → put m guti c g ≡ some d
    → NoTunnel d
put_blank m guti c h k g d e = elim (Bool-cases (guti == g)) [
  | inl same ↦
      subst NoTunnel (ap (λ o. get_or o c) (ap (λ b. if b then some c else m g) (sym same) ∙ e)) k
  | inr other ↦ h g d (ap (λ b. if b then some c else m g) (sym other) ∙ e)
]

pub set_local-Sound :
    {n : ℕ} (a : Amf) (guti : ℕ) (c : UeContext)
    → Sound n a
    → NoTunnel c
    → Sound n (set_local a guti c)
unfolding set_local
set_local-Sound a guti c h k = record {
  counted = h.counted;
  numbered = h.numbered;
  blank = put_blank a.ue_ctx guti c h.blank k;
}

pub rem_local-Sound : {n : ℕ} (a : Amf) (guti : ℕ) → Sound n a → Sound n (rem_local a guti)
unfolding rem_local
rem_local-Sound a guti h = record {
  counted = h.counted;
  numbered = h.numbered;
  blank = λ g c e. elim (Bool-cases (guti == g)) [
    | inl same ↦ let f = ap (λ b. if b then none else a.ue_ctx g) (sym same) ∙ e in cc
    | inr other ↦ h.blank g c (ap (λ b. if b then none else a.ue_ctx g) (sym other) ∙ e)
  ];
}

pub rem_s1amf_id-Sound : {n : ℕ} (a : Amf) (mme : ℕ) → Sound n a → Sound n (rem_s1amf_id a mme)
unfolding rem_s1amf_id
rem_s1amf_id-Sound a mme h = record {
  counted = h.counted;
  numbered = λ n guti e. elim (Bool-cases (mme == n)) [
    | inl same ↦ let f = ap (λ b. if b then none else a.s1amf_id n) (sym same) ∙ e in cc
    | inr other ↦ h.numbered n guti (ap (λ b. if b then none else a.s1amf_id n) (sym other) ∙ e)
  ];
  blank = h.blank;
}

test→≡ : (x y : ℕ) → (x == y) ≡ true → x ≡ y
test→≡ x y e = ground arith

-- A new UE takes the next number, which nobody has.
pub enter-Sound :
    {n : ℕ} (a : Amf) (count guti : ℕ)
    → count ≡ a.ue_count + 1
    → Sound n a
    → Sound (n + 1) (record a { ue_count = count; s1amf_id = put a.s1amf_id count guti })
enter-Sound {n = n} a count guti next h = record {
  counted = omega (arith, h.counted);
  numbered = λ m g e. elim (Bool-cases (count == m)) [
    | inl same ↦ (omega (arith, test→≡ count m same), omega (arith, test→≡ count m same))
    | inr other ↦
        let f = ap (λ b. if b then some guti else a.s1amf_id m) (sym other) ∙ e in
        (omega (arith, h.numbered m g f), omega (arith, h.numbered m g f))
  ];
  blank = h.blank;
}

-- The globals are no table.
pub relocated-Sound :
    {n : ℕ} (a : Amf) (ip : Bytes) (port : ℕ)
    → Sound n a
    → Sound n (record a { g_upf_s1_ip_addr = ip; g_upf_s1_port = port })
relocated-Sound a ip port h = record { counted = h.counted; numbered = h.numbered; blank = h.blank }

pub weaken-Sound : {n : ℕ} (a : Amf) → Sound n a → Sound (n + 1) a
weaken-Sound a h = record {
  counted = omega (arith, h.counted);
  numbered = h.numbered;
  blank = h.blank;
}

pub unused : {n : ℕ} (a : Amf) (m : ℕ) → Sound n a → a.ue_count < m → a.s1amf_id m ≡ none
unused a m h big = elim (Option-cases (a.s1amf_id m)) [
  | inl e ↦ e
  | inr (g, e) ↦ absurd (omega (arith, h.numbered m g e))
]
