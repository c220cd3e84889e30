-- ===== src/Upf/Sessions.antt =====
-- What the UPF's tables say about its sessions, after any N4 requests.
use g_core_rest_sba.Base.{
  ℕ, ◌+◌, length-append, true, ◌++◌, ◌^◌, ◌<◌, ◌≤◌, length, subst, Bool, false, ◌≡◌, ◌≢◌, inl, inr,
  refl, sym, ap, ◌∙◌, none, some, [], ◌∷◌, Bytes, arith, ◌==◌, if◌then◌else◌, Bool-cases,
  Option-cases,
}
use g_core_rest_sba.Base.Map.{Map, put, get_or}
use g_core_rest_sba.Base.Stop.{ok}
use g_core_rest_sba.Upf.State.{Upf, UeContext, new_upf, ue, ho_ue}
use g_core_rest_sba.Upf.Request.{
  Request, create, modify, detach, setup, complete, teardown, Reply, answer, detached, imsi_of,
  enter, leave, address_of,
}
use g_core_rest_sba.Packet.Buffer.{until_nul, buf_size}
use g_core_rest_sba.Packet.Codec.{le_bytes}
use g_core_rest_sba.Packet.Header.{gtp_hdr_len}
use g_core_rest_sba.Packet.Items.{AllInRange, images, flag}
use g_core_rest_sba.Base.Words.{u32}

-- A text that a reply can carry: without a zero byte, and short.
abbrev pub Plain : Bytes → Type 0
Plain s = (until_nul s ≡ s) × (length s ≤ 900)

-- The control-plane TEIDs and the contexts name one another, and the addresses are plain.
pub record Linked (u : Upf) : Type 0 where
  pub to_teid :
      (imsi : ℕ) (c : UeContext)
      → u.ue_ctx imsi ≡ some c
      → (u.s11_id c.s11_cteid_upf ≡ some imsi)
        × (c.s11_cteid_smf ≡ c.s11_cteid_upf)
        × (c.s1_uteid_ul ≡ c.s11_cteid_upf)
        × (imsi ≢ 0)
        × (c.s11_cteid_upf < 2 ^ 32)
  pub to_ue :
      (teid imsi : ℕ)
      → u.s11_id teid ≡ some imsi
      → (c : UeContext) × (u.ue_ctx imsi ≡ some c) × (c.s11_cteid_upf ≡ teid)
  pub addresses : (imsi : ℕ) → Plain (address_of u imsi)

-- A new session takes a TEID that is free or its own, and a subscriber keeps its TEID. The other
-- requests name a TEID in use.
abbrev pub Admissible : Upf → Request → Type 0
Admissible u (create smf imsi eps apn tai) =
    (imsi ≢ 0)
    × ((other : ℕ) → u.s11_id smf ≡ some other → other ≡ imsi)
    × ((c : UeContext) → u.ue_ctx imsi ≡ some c → c.s11_cteid_upf ≡ smf)
    × (smf < 2 ^ 32)
Admissible u (modify teid eps dl enodeb port) = u.s11_id teid ≢ none
Admissible u (detach teid eps tai) = u.s11_id teid ≢ none
Admissible u (setup teid dl) = u.s11_id teid ≢ none
Admissible u (complete teid) = u.s11_id teid ≢ none
Admissible u (teardown teid ul) = u.s11_id teid ≢ none

-- The subscriber of a TEID after the session is entered.
entered_ue :
    (u : Upf) (smf imsi : ℕ) (d : UeContext)
    → Linked u
    → ((c : UeContext) → u.ue_ctx imsi ≡ some c → c.s11_cteid_upf ≡ smf)
    → d.s11_cteid_upf ≡ smf
    → (t i : ℕ) → put u.s11_id smf imsi t ≡ some i
    → (c : UeContext) × (put u.ue_ctx imsi d i ≡ some c) × (c.s11_cteid_upf ≡ t)
entered_ue u smf imsi d l a k t i e = elim (Bool-cases (smf == t)) [
  | inl same ↦ (d, ground arith, ground arith)
  | inr other ↦
      let (c, f, g) = l.to_ue t i (ground arith) in
      elim (Bool-cases (imsi == i)) [
        | inl own ↦ (d, ground arith, ground (arith, a c))
        | inr apart ↦ (c, ground arith, g)
      ]
]

kept_address :
    (u : Upf) (imsi i : ℕ)
    → Plain (address_of u imsi)
    → Plain (address_of u i)
    → Plain (get_or (put u.ip_addrs imsi (address_of u imsi) i) [])
kept_address u imsi i p q = elim (Bool-cases (imsi == i)) [
  | inl same ↦ subst (λ o. Plain (get_or o [])) (sym (entry same)) p
  | inr other ↦ subst (λ o. Plain (get_or o [])) (sym (entry other)) q
]
  where
    entry :
        {b : Bool}
        → (imsi == i) ≡ b
        → put u.ip_addrs imsi (address_of u imsi) i
          ≡ (if b then some (address_of u imsi) else u.ip_addrs i)
    entry e = ap (λ b. if b then some (address_of u imsi) else u.ip_addrs i) e

pub enter-Linked :
    (u : Upf) (smf imsi eps apn tai : ℕ)
    → Linked u
    → Admissible u (create smf imsi eps apn tai)
    → Linked (enter u smf imsi eps apn tai)
enter-Linked u smf imsi eps apn tai l a = record {
  to_teid = λ i c e. ground (arith, l.to_teid i c, a.1 i, a.2 c, a.3);
  to_ue = entered_ue u smf imsi _ l a.2 refl;
  addresses = λ i. kept_address u imsi i (l.addresses imsi) (l.addresses i);
}

-- A context that is written again under the same TEIDs.
touch-Linked :
    (u v : Upf) (imsi : ℕ) (c d : UeContext)
    → Linked u
    → u.ue_ctx imsi ≡ some c
    → (d.s11_cteid_upf ≡ c.s11_cteid_upf)
      × (d.s11_cteid_smf ≡ c.s11_cteid_smf)
      × (d.s1_uteid_ul ≡ c.s1_uteid_ul)
    → v.s11_id ≡ u.s11_id
    → v.ue_ctx ≡ put u.ue_ctx imsi d
    → v.ip_addrs ≡ u.ip_addrs
    → Linked v
touch-Linked u v imsi c d l h k es ec ea = record {
  to_teid = λ i x e.
      let f : put u.ue_ctx imsi d i ≡ some x = ap (λ m. m i) (sym ec) ∙ e in
      rw es (ground (arith, l.to_teid i x, l.to_teid imsi c));
  to_ue = λ t i e.
      let (x, f, g) = l.to_ue t i (ap (λ m. m t) (sym es) ∙ e) in
      elim (Bool-cases (imsi == i)) [
        | inl own ↦ (d, rw ec (ground arith), ground arith)
        | inr apart ↦ (x, rw ec (ground arith), g)
      ];
  addresses = λ i. subst (λ m. Plain (get_or (m i) [])) (sym ea) (l.addresses i);
}

leave-Linked :
    (u : Upf) (imsi : ℕ) (c : UeContext)
    → Linked u
    → u.ue_ctx imsi ≡ some c
    → Linked (leave u imsi c)
leave-Linked u imsi c l h = record {
  to_teid = λ i x e. ground (arith, l.to_teid i x, l.to_teid imsi c);
  to_ue = λ t i e.
      let (x, f, g) = l.to_ue t i (ground arith) in (x, ground (arith, l.to_teid imsi c), g);
  addresses = l.addresses;
}

-- The context and the subscriber of a TEID in use.
owner_lem :
    (u : Upf) (teid : ℕ)
    → Linked u
    → u.s11_id teid ≢ none
    → (c : UeContext) × (u.ue_ctx (imsi_of u teid) ≡ some c)
owner_lem u teid l h = elim (Option-cases (u.s11_id teid)) [
  | inl none_there ↦ absurd (h none_there)
  | inr (i, e) ↦ let (c, f, g) = l.to_ue teid i e in (c, ground arith)
]

-- The three handover requests write the context of a TEID in use again.
handover-Linked :
    (u v : Upf) (teid : ℕ) (f : UeContext → UeContext)
    → ((c : UeContext)
        → ((f c).s11_cteid_upf ≡ c.s11_cteid_upf)
          × ((f c).s11_cteid_smf ≡ c.s11_cteid_smf)
          × ((f c).s1_uteid_ul ≡ c.s1_uteid_ul))
    → Linked u
    → u.s11_id teid ≢ none
    → v.s11_id ≡ u.s11_id
    → v.ue_ctx ≡ put u.ue_ctx (imsi_of u teid) (f (ue u (imsi_of u teid)))
    → v.ip_addrs ≡ u.ip_addrs
    → Linked v
unfolding ue
handover-Linked u v teid f k l h es ec ea =
    let (c, e) = owner_lem u teid l h in
    touch-Linked u v (imsi_of u teid) c (f c) l e (k c) es (ec ∙ rw e refl) ea

-- The subscriber of a TEID in use is not the number 0.
in_use_lem : (u : Upf) (teid : ℕ) → Linked u → u.s11_id teid ≢ none → (imsi_of u teid == 0) ≡ false
in_use_lem u teid l h =
    let (c, e) = owner_lem u teid l h in let k = l.to_teid (imsi_of u teid) c e in ground arith

if_false : {A : Type 0} {b : Bool} (x y : A) → b ≡ false → (if b then x else y) ≡ y
if_false x y e = rw e

pub u32_bound : (n : ℕ) → u32 n < 2 ^ 32
u32_bound n = omega arith

-- A reply that a packet can carry.
abbrev pub Sendable : Reply → Type 0
Sendable r =
    AllInRange r.items
    × (r.msg_type < 2 ^ 8)
    × (r.teid < 2 ^ 32)
    × (gtp_hdr_len + length (images r.items) ≤ buf_size)

-- The TEID of the context that a TEID in use stands for.
small_lem :
    (u : Upf) (teid : ℕ)
    → Linked u
    → u.s11_id teid ≢ none
    → (ue u (imsi_of u teid)).s11_cteid_smf < 2 ^ 32
unfolding ue
small_lem u teid l h =
    let (c, e) = owner_lem u teid l h in
    let k = l.to_teid (imsi_of u teid) c e in rw e (omega (arith, k.1, k.4))

plain_Sendable :
    (u : Upf) (t teid : ℕ)
    → Linked u
    → u.s11_id teid ≢ none
    → t < 2 ^ 8
    → Sendable (record {
      items = flag true ∷ [];
      msg_type = t;
      teid = (ue u (imsi_of u teid)).s11_cteid_smf;
    })
plain_Sendable u t teid l h k = ((tt, tt), k, small_lem u teid l h, omega arith)

-- A request is answered with a reply that can be sent, and the tables are linked afterwards.
abbrev pub Answered : Upf → Request → Type 0
Answered u r =
    (v : Upf) × (reply : Reply) × (answer u r ≡ ok (v, reply)) × Linked v × Sendable reply

pub step-Linked : (u : Upf) (r : Request) → Linked u → Admissible u r → Answered u r
unfolding answer le_bytes
step-Linked u (create smf imsi eps apn tai) l a =
    let (clean, short) = l.addresses imsi in
    (
      _,
      _,
      refl,
      enter-Linked u smf imsi eps apn tai l a,
      (
        (a.3, (clean, (a.3, tt))),
        omega arith,
        a.3,
        omega (arith, short, length-append (address_of u imsi) (le_bytes 4 smf ++ [])),
      ),
    )
step-Linked u (modify teid eps dl enodeb port) l a = (
  _,
  _,
  if_false _ _ (in_use_lem u teid l a),
  (handover-Linked u _ teid
      (λ c. record c { s1_uteid_dl = dl; enodeb_ip_addr = enodeb; enodeb_port = port })
      (λ c. (refl, refl, refl)) l a refl refl refl),
  plain_Sendable u 2 teid l a (omega arith),
)
step-Linked u (detach teid eps tai) l a =
    let (c, e) = owner_lem u teid l a in
    let k = l.to_teid (imsi_of u teid) c e in
    (
      _,
      _,
      if_false _ _ (in_use_lem u teid l a) ∙ ap (detached u (imsi_of u teid)) e,
      leave-Linked u (imsi_of u teid) c l e,
      ((tt, tt), omega arith, omega (arith, k.1, k.4), omega arith),
    )
step-Linked u (setup teid dl) l a = (
  _,
  _,
  refl,
  handover-Linked u _ teid (λ c. c) (λ c. (refl, refl, refl)) l a refl refl refl,
  (
    (tt, (u32_bound ((ue u (imsi_of u teid)).s11_cteid_smf + 1), tt)),
    omega arith,
    small_lem u teid l a,
    omega arith,
  ),
)
step-Linked u (complete teid) l a = (
  _,
  _,
  refl,
  (handover-Linked u _ teid (λ c. record c { s1_uteid_dl = (ho_ue u (imsi_of u teid)).s1_uteid_dl })
      (λ c. (refl, refl, refl)) l a refl refl refl),
  plain_Sendable u 5 teid l a (omega arith),
)
step-Linked u (teardown teid ul) l a = (
  _,
  _,
  refl,
  handover-Linked u _ teid (λ c. c) (λ c. (refl, refl, refl)) l a refl refl refl,
  plain_Sendable u 6 teid l a (omega arith),
)

pub new_upf-Linked :
    (plan : Map ℕ Bytes) (junk : ℕ)
    → ((imsi : ℕ) → Plain (get_or (plan imsi) []))
    → Linked (new_upf plan junk)
unfolding new_upf
new_upf-Linked plan junk plain = record {
  to_teid = λ i c e. cc;
  to_ue = λ t i e. cc;
  addresses = plain;
}
