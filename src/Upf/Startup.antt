-- ===== src/Upf/Startup.antt =====
-- The UPF as its constructor leaves it: no session, and the address plan, with the first sessions
-- that it serves.
use g_core_rest_sba.Base.{
  ℕ, ◌+◌, ◌≤◌, ◌≡◌, refl, ap, subst, sym, ◌∙◌, zero, suc, List, [], ◌∷◌, ◌++◌, map, Bytes, arith,
  ltb, leb, ◌&&◌, ◌==◌, true, false, none, some, Bool, if◌then◌else◌, length, length-append, ◌-◌,
  ◌/◌, ◌%◌, ◌<◌, ◌≢◌, ◌^◌, bytes_eq, bytes_eq_sound, bytes_eq_self, Bool-cases, inl, inr, unless,
  when,
}
use g_core_rest_sba.Base.Map.{Map, empty, get_or, put_str}
use g_core_rest_sba.Packet.Buffer.{Packet, until_nul}
use g_core_rest_sba.Telecom.Decimal.{digits}
use g_core_rest_sba.Upf.State.{Upf, new_upf}
use g_core_rest_sba.Upf.Addresses.{
  ip_text, chars, address, set_ip_addrs, set_ip_addrs_lem, address-injective, first_imsi,
  max_ue_count,
}
use g_core_rest_sba.Upf.Sessions.{Plain, Linked, Admissible, new_upf-Linked}
use g_core_rest_sba.Upf.Request.{Request, create, answer, enter, address_of}
use g_core_rest_sba.Upf.Exchange.{serve_all, AllAdmissible, sessions-Linked}
use g_core_rest_sba.Upf.Changes.{tables}
use g_core_rest_sba.Upf.Handlers.{SockAddr}
use g_core_rest_sba.Packet.Header.{GtpInRange}
use g_core_rest_sba.Packet.Codec.{le_bytes}
use g_core_rest_sba.Base.Stop.{ok}

length-digits : (fuel n : ℕ) → length (digits fuel n) ≤ fuel
unfolding digits
length-digits zero n = omega arith
length-digits (suc fuel) n =
    ground
      (arith, length-append (digits fuel (n / 10)) ((n % 10) ∷ []), length-digits fuel (n / 10))

length-map : (ds : List ℕ) → length (map (λ d. d + 48) ds) ≡ length ds
length-map [] = refl
length-map (d ∷ ds) = ap suc (length-map ds)

until_nul-chars :
    (ds : List ℕ) (rest : Bytes)
    → until_nul (map (λ d. d + 48) ds ++ rest) ≡ map (λ d. d + 48) ds ++ until_nul rest
unfolding until_nul
until_nul-chars [] rest = refl
until_nul-chars (d ∷ ds) rest =
    let visible : (d + 48 == 0) ≡ false = ground arith in
    ap (λ b. if b then [] else (d + 48) ∷ until_nul (map (λ d. d + 48) ds ++ rest)) visible
    ∙ ap (λ bs. (d + 48) ∷ bs) (until_nul-chars ds rest)

until_nul-digits : (ds : List ℕ) → until_nul (map (λ d. d + 48) ds) ≡ map (λ d. d + 48) ds
unfolding until_nul
until_nul-digits [] = refl
until_nul-digits (d ∷ ds) =
    let visible : (d + 48 == 0) ≡ false = ground arith in
    ap (λ b. if b then [] else (d + 48) ∷ until_nul (map (λ d. d + 48) ds)) visible
    ∙ ap (λ bs. (d + 48) ∷ bs) (until_nul-digits ds)

ip_text-Plain : (subnet host : ℕ) → Plain (ip_text subnet host)
unfolding ip_text until_nul
ip_text-Plain subnet host = (
  ap (λ bs. 49 ∷ 55 ∷ 50 ∷ 46 ∷ 49 ∷ 54 ∷ 46 ∷ bs)
      (until_nul-chars (digits 20 subnet) (46 ∷ chars host)
        ∙ ap (λ bs. chars subnet ++ (46 ∷ bs)) (until_nul-digits (digits 20 host))),
  omega (
    arith,
    length-append (chars subnet) (46 ∷ chars host),
    length-map (digits 20 subnet),
    length-map (digits 20 host),
    length-digits 20 subnet,
    length-digits 20 host,
  ),
)

entry-Plain :
    (b : Bool) (i : ℕ) → Plain (get_or {V = Bytes} (if b then some (address i) else none) [])
unfolding until_nul
entry-Plain true i = ip_text-Plain (1 + i / 252) (3 + i % 252)
entry-Plain false i = (refl, omega arith)

-- The UPF that its constructor leaves, with the plan of set_ip_addrs and no session.
start-Linked : (junk : ℕ) → Linked (new_upf (set_ip_addrs empty) junk)
start-Linked junk = new_upf-Linked (set_ip_addrs empty) junk (λ imsi.
    subst (λ o. Plain (get_or o [])) (sym (set_ip_addrs_lem imsi))
      (entry-Plain (leb first_imsi imsi && ltb imsi (first_imsi + max_ue_count))
        (imsi - first_imsi)))

abbrev start : ℕ → Upf
start junk = new_upf (set_ip_addrs empty) junk

planned_address :
    (i : ℕ) → i < max_ue_count → get_or (set_ip_addrs empty (first_imsi + i)) [] ≡ address i
planned_address i h = ap (λ o. get_or o []) (set_ip_addrs_lem (first_imsi + i)) ∙ ground arith

-- Two entries under different texts.
two_entries :
    (m : Map Bytes ℕ) (a b : Bytes) (x y : ℕ)
    → a ≢ b
    → (put_str (put_str m a x) b y a ≡ some x) × (put_str (put_str m a x) b y b ≡ some y)
two_entries m a b x y apart =
    let other : bytes_eq b a ≡ false = elim (Bool-cases (bytes_eq b a)) [
      | inl same ↦ absurd (apart (sym (bytes_eq_sound b a same)))
      | inr other ↦ other
    ] in
    (
      unless (some y) other (when (m a) (bytes_eq_self a) refl),
      when (put_str m a x b) (bytes_eq_self b) refl,
    )

-- Two sessions.
abbrev pub two_sessions : ℕ → ℕ → ℕ → ℕ → ℕ → ℕ → ℕ → ℕ → List Request
two_sessions i j smf1 smf2 eps1 eps2 apn tai =
    create smf1 (first_imsi + i) eps1 apn tai ∷ create smf2 (first_imsi + j) eps2 apn tai ∷ []

module _ (junk i j smf1 smf2 eps1 eps2 apn tai : ℕ) (hi : i < max_ue_count) (hj : j < max_ue_count)
    (apart : i ≢ j) (h1 : smf1 < 2 ^ 32) (h2 : smf2 < 2 ^ 32) (others : smf1 ≢ smf2)
    (he1 : eps1 < 2 ^ 8) (he2 : eps2 < 2 ^ 8) (ha : apn < 2 ^ 64) (ht : tai < 2 ^ 64) where
  abbrev after_one : Upf
  after_one = enter (start junk) smf1 (first_imsi + i) eps1 apn tai

  abbrev after_two : Upf
  after_two = enter after_one smf2 (first_imsi + j) eps2 apn tai

  second-Admissible : Admissible after_one (create smf2 (first_imsi + j) eps2 apn tai)
  unfolding new_upf
  second-Admissible = (λ h. absurd (omega arith), λ other e. ground arith, λ c e. ground arith, h2)

  both-AllAdmissible : AllAdmissible (start junk) (two_sessions i j smf1 smf2 eps1 eps2 apn tai)
  unfolding new_upf answer le_bytes
  both-AllAdmissible = (
    ((h1, (omega arith, (he1, (ha, (ht, tt))))), omega arith, omega arith),
    (λ h. absurd (omega arith), λ other e. cc, λ c e. cc, h1),
    λ v reply e. (
      ((h2, (omega arith, (he2, (ha, (ht, tt))))), omega arith, omega arith),
      subst (λ (u : Upf). Admissible u (create smf2 (first_imsi + j) eps2 apn tai)) (tables e)
          second-Admissible,
      λ _ _ _. tt,
    ),
  )

  -- A UPF that its constructor leaves, with the plan of set_ip_addrs, serves the creations of two
  -- sessions, in range and with different TEIDs, of two different subscribers of the plan, each
  -- sent as a packet, to the end: its tables are then linked, and each of the two is found under
  -- the address of its own in the closed form of the plan, and these two addresses differ.
  pub sessions_apart :
      (src : SockAddr) (p rx : Packet)
      → GtpInRange p.gtp_hdr
      → (v : Upf) × (serve_all src p rx (start junk) (two_sessions i j smf1 smf2 eps1 eps2 apn tai)
          ≡ ok v)
        × Linked v
        × (v.sgi_id (address i) ≡ some (first_imsi + i))
        × (v.sgi_id (address j) ≡ some (first_imsi + j))
        × (address i ≢ address j)
  unfolding answer new_upf
  sessions_apart src p rx g =
      let (v, served, answered, linked) =
        sessions-Linked (two_sessions i j smf1 smf2 eps1 eps2 apn tai) (start junk) src p rx g
          (start-Linked junk) both-AllAdmissible in
      let same : after_two ≡ v = cc in
      let different : address i ≢ address j = λ e. apart (address-injective i j hi hj e) in
      let first : address_of (start junk) (first_imsi + i) ≡ address i = planned_address i hi in
      let key : (first_imsi + i == first_imsi + j) ≡ false = ground arith in
      let second : address_of after_one (first_imsi + j) ≡ address j =
        ap
          (λ b.
            get_or
              (if b
                then some (address_of (start junk) (first_imsi + i))
                else set_ip_addrs empty (first_imsi + j))
              [])
          key
        ∙ planned_address j hj in
      let table : v.sgi_id
          ≡ put_str (put_str empty (address i) (first_imsi + i)) (address j) (first_imsi + j) =
        ap (λ (u : Upf). u.sgi_id) (sym same)
        ∙ ap
            (λ a.
              put_str (put_str empty a (first_imsi + i)) (address_of after_one (first_imsi + j))
                (first_imsi + j))
            first
        ∙ ap (λ a. put_str (put_str empty (address i) (first_imsi + i)) a (first_imsi + j))
            second in
      let (one, two) =
        two_entries empty (address i) (address j) (first_imsi + i) (first_imsi + j) different in
      (
        v,
        served,
        linked,
        ap (λ m. m (address i)) table ∙ one,
        ap (λ m. m (address j)) table ∙ two,
        different,
      )
