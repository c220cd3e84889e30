-- ===== src/Security/Seal.antt =====
-- What `class Integrity` of src/security.cpp accepts, and protected messages from one side to the
-- other.
use g_core_rest_sba.Base.{
  ℕ, ◌+◌, ◌^◌, ◌≤◌, ◌<◌, ◌≡◌, refl, sym, ap, subst, ◌∙◌, Bool, true, not, ◌↔◌, List, [], ◌∷◌, ◌++◌,
  append-nil, map, arith, Bytes, length, length-append, le→leb, when, ◌==◌,
}
use g_core_rest_sba.Base.Words.{u16}
use g_core_rest_sba.Base.Stop.{ok, ◌>>=◌, bind_ok, pass, hmac_failure}
use g_core_rest_sba.Packet.Header.{
  S1ap, S1apInRange, init_s1ap, s1ap_image, length-s1ap_image, s1ap_hdr_len,
}
use g_core_rest_sba.Packet.Buffer.{Packet, buf_size, prepend_s1ap_hdr, deliver}
use g_core_rest_sba.Packet.Contents.{Builds, extract_bytes_lem}
use g_core_rest_sba.Packet.Items.{Item, kind, images, AllInRange, extract_items-Reads}
use g_core_rest_sba.Packet.Message.{built}
use g_core_rest_sba.Security.Openssl.{Openssl}
use g_core_rest_sba.Security.Crypt.{
  crypt_key, crypt_iv, integrity_key, hmac_len, swapped, cmp_hmacs, contents, decrypted, enc, dec,
  get_hmac, add_hmac, rem_hmac, hmac_check, build_nas, build_sealed, parse_nas,
}
use g_core_rest_sba.Security.Filled.{
  Holds, Left, Left-data_ptr, Left-fits, Left-s1ap_hdr, deliver_lem, extract_s1ap_hdr_lem, filled,
  filled-Holds, filled-Left, filled-Reads, prepend_lem, prepended, prepended-Holds, truncate_lem,
}

pub contents_lem :
    (O : Openssl) (p : Packet) (bs : Bytes)
    → Holds p bs
    → length bs ≤ buf_size
    → contents O p ≡ ok bs
unfolding contents
contents_lem O p bs held h =
    when _ (le→leb p.len buf_size (omega (arith, held.counted))) (ap ok held.holds)

equal : (x y : ℕ) → x ≡ y → (x == y) ≡ true
equal x y h = ground arith

pub cmp_hmacs_refl : (xs : Bytes) → cmp_hmacs xs xs ≡ true
cmp_hmacs_refl [] = refl
cmp_hmacs_refl (x ∷ xs) = rw (equal x x refl) (cmp_hmacs_refl xs)

cmp_hmacs→≡ : (xs ys : Bytes) → cmp_hmacs xs ys ≡ true → xs ≡ ys
cmp_hmacs→≡ [] [] h = refl
cmp_hmacs→≡ [] (y ∷ ys) h = cc
cmp_hmacs→≡ (x ∷ xs) [] h = cc
cmp_hmacs→≡ (x ∷ xs) (y ∷ ys) h = ground (arith, cmp_hmacs→≡ xs ys)

cmp_hmacs_iff : (xs ys : Bytes) → (cmp_hmacs xs ys ≡ true) ↔ (xs ≡ ys)
cmp_hmacs_iff xs ys =
    (cmp_hmacs→≡ xs ys, λ e. subst (λ zs. cmp_hmacs xs zs ≡ true) e (cmp_hmacs_refl xs))

module _ (O : Openssl) where
  -- The digest that `add_hmac` puts before `bs` and that `hmac_check` expects.
  abbrev pub mac : Bytes → Bytes
  mac bs = O.hmac_sha1 integrity_key bs

  pub rem_hmac-Left :
      (p : Packet) (xres bs : Bytes)
      → hmac_len ≡ length xres
      → Left p (xres ++ bs)
      → rem_hmac O p ≡ ok (xres, filled p bs)
  unfolding rem_hmac
  rem_hmac-Left p xres bs e h = bind_ok _ (extract_bytes_lem p hmac_len xres bs e h.reads) (
      bind_ok _
        (truncate_lem (record p { data_ptr = p.data_ptr + hmac_len }) bs
          (Left-data_ptr p hmac_len xres bs e h))
        refl)

  -- The digest of what a packet holds, wherever its cursor stands.
  pub get_hmac_lem :
      (p : Packet) (k_nas_int : ℕ) (bs : Bytes)
      → Holds p bs
      → length bs ≤ buf_size
      → get_hmac O p k_nas_int ≡ ok (mac bs)
  unfolding get_hmac
  get_hmac_lem p k_nas_int bs held h = bind_ok _ (contents_lem O p bs held h) refl

  pub hmac_check-Left :
      (p : Packet) (k_nas_int : ℕ) (xres bs : Bytes)
      → hmac_len ≡ length xres
      → Left p (xres ++ bs)
      → hmac_check O p k_nas_int ≡ ok (cmp_hmacs (mac bs) xres, filled p bs)
  unfolding hmac_check
  hmac_check-Left p k_nas_int xres bs e h = bind_ok _ (rem_hmac-Left p xres bs e h) (
      bind_ok _
        (get_hmac_lem (filled p bs) k_nas_int bs (filled-Holds p bs)
          (omega (arith, Left-fits p (xres ++ bs) h, length-append xres bs)))
        refl)

  -- A packet of which exactly twenty bytes and then some bytes are left to read is checked to the
  -- end, whatever key is passed: just those bytes are then left, and the answer is true if and
  -- only if the twenty are the digest of the bytes under the key of the constructor.
  pub hmac_check_lem :
      (p : Packet) (k_nas_int : ℕ) (xres bs : Bytes)
      → hmac_len ≡ length xres
      → Left p (xres ++ bs)
      → (res : Bool) × (q : Packet) × (hmac_check O p k_nas_int ≡ ok (res, q))
        × Left q bs
        × ((res ≡ true) ↔ (mac bs ≡ xres))
  hmac_check_lem p k_nas_int xres bs e h = (
    cmp_hmacs (mac bs) xres,
    filled p bs,
    hmac_check-Left p k_nas_int xres bs e h,
    filled-Left p bs (omega (arith, Left-fits p (xres ++ bs) h, length-append xres bs)),
    cmp_hmacs_iff (mac bs) xres,
  )

  abbrev pub cipher : Bytes → Bytes
  cipher bs = O.encrypt crypt_key crypt_iv bs

  enc_lem :
      (p : Packet) (k_nas_enc : ℕ) (bs : Bytes)
      → Builds p bs
      → length (cipher bs) ≤ buf_size
      → enc O p k_nas_enc ≡ ok (filled p (cipher bs))
  unfolding enc contents swapped
  enc_lem p k_nas_enc bs b h =
      bind_ok _ (when _ (le→leb p.len buf_size (omega (arith, b.counted, b.fits))) (ap ok b.holds))
        (when _ (le→leb (length (cipher bs)) buf_size h) refl)

  pub dec_lem :
      (p : Packet) (k_nas_enc : ℕ) (bs : Bytes)
      → length (cipher bs) ≤ buf_size
      → length bs ≤ buf_size
      → dec O (filled p (cipher bs)) k_nas_enc ≡ ok (filled p bs)
  unfolding dec decrypted swapped
  dec_lem p k_nas_enc bs hc hb =
      bind_ok _ (truncate_lem (filled p (cipher bs)) (cipher bs) (filled-Left p (cipher bs) hc)) (
        bind_ok _
          (contents_lem O (filled p (cipher bs)) (cipher bs) (filled-Holds p (cipher bs)) hc)
          (rw (O.decrypt-encrypt crypt_key crypt_iv bs)
            (when _ (le→leb (length bs) buf_size hb) refl)))

  add_hmac_lem :
      (p : Packet) (k_nas_int : ℕ) (bs : Bytes)
      → Holds p bs
      → 20 + length bs ≤ buf_size
      → add_hmac O p k_nas_int ≡ ok (prepended (mac bs) p)
  unfolding add_hmac
  add_hmac_lem p k_nas_int bs held h =
      bind_ok _ (get_hmac_lem p k_nas_int bs held (omega arith))
        (prepend_lem p (mac bs) (omega (arith, held.counted, O.length-hmac_sha1 integrity_key bs)))

  -- The header in front of a protected message.
  abbrev outer : Packet → ℕ → ℕ → ℕ → ℕ → S1ap
  outer a n t enodeb mme = record a.s1ap_hdr {
    msg_type = t;
    msg_len = u16 n;
    enodeb_s1ap_ue_id = enodeb;
    mme_s1ap_ue_id = mme;
  }

  -- A protected message: its header, the digest of `bs`, and `bs`.
  pub record Message (c : Packet) (bs : Bytes) (t enodeb mme : ℕ) : Type 0 where
    pub header : S1ap
    pub holds : Holds c (s1ap_image header ++ (mac bs ++ bs))
    pub in_range : S1apInRange header
    pub is_type : header.msg_type ≡ t
    pub is_enodeb : header.enodeb_s1ap_ue_id ≡ enodeb
    pub is_mme : header.mme_s1ap_ue_id ≡ mme

  -- The digest and the header, put in front of contents.
  closed :
      (a : Packet) (bs : Bytes) (t enodeb mme k_nas_int : ℕ)
      → Holds a bs
      → S1apInRange a.s1ap_hdr
      → t < 2 ^ 8
      → enodeb < 2 ^ 32
      → mme < 2 ^ 32
      → s1ap_hdr_len + hmac_len + length bs ≤ buf_size
      → (c : Packet) × ((add_hmac O a k_nas_int >>= λ r. prepend_s1ap_hdr t r.len enodeb mme r)
          ≡ ok c)
        × Message c bs t enodeb mme
  unfolding prepend_s1ap_hdr init_s1ap
  closed a bs t enodeb mme k_nas_int held old gt ge gm room =
      let twenty : length (mac bs) ≡ 20 = O.length-hmac_sha1 integrity_key bs in
      let m : Packet = prepended (mac bs) a in
      let h : S1ap = outer a m.len t enodeb mme in
      let hm : Holds m (mac bs ++ bs) = prepended-Holds a (mac bs) bs held in
      let hh : Holds (record m { s1ap_hdr = h }) (mac bs ++ bs) = record {
        counted = hm.counted;
        holds = hm.holds;
      } in
      (
        prepended (s1ap_image h) (record m { s1ap_hdr = h }),
        bind_ok _ (add_hmac_lem a k_nas_int bs held (omega arith)) (
            prepend_lem (record m { s1ap_hdr = h }) (s1ap_image h)
              (omega (arith, held.counted, length-s1ap_image h))),
        record {
          header = h;
          holds = prepended-Holds (record m { s1ap_hdr = h }) (s1ap_image h) (mac bs ++ bs) hh;
          in_range = record {
            msg_len = omega arith;
            msg_type = gt;
            pad_3 = old.pad_3;
            enodeb_s1ap_ue_id = ge;
            mme_s1ap_ue_id = gm;
          };
          is_type = refl;
          is_enodeb = refl;
          is_mme = refl;
        },
      )

  module _ (p : Packet) (is : List Item) (t enodeb mme : ℕ) (g : S1apInRange p.s1ap_hdr)
      (clean : AllInRange is) (gt : t < 2 ^ 8) (ge : enodeb < 2 ^ 32) (gm : mme < 2 ^ 32)
      (room : s1ap_hdr_len + hmac_len + length (images is) + 16 ≤ buf_size) where
    -- What the sender ends with, encrypted or not.
    pub built_nas :
        (k_nas_enc k_nas_int : ℕ)
        → (c : Packet) × (build_nas O is t enodeb mme k_nas_enc k_nas_int p ≡ ok c)
          × Message c (cipher (images is)) t enodeb mme
    built_nas k_nas_enc k_nas_int =
        let ct : Bytes = cipher (images is) in
        let small : length ct ≤ length (images is) + 16 =
          O.length-encrypt crypt_key crypt_iv (images is) in
        let (a, e, b, same) = built p is clean (omega arith) in
        let (c, f, m) =
          closed (filled a ct) ct t enodeb mme k_nas_int (filled-Holds a ct)
            (subst S1apInRange (sym same.1) g) gt ge gm (omega arith) in
        (c, bind_ok _ e (bind_ok _ (enc_lem a k_nas_enc (images is) b (omega arith)) f), m)

    pub built_sealed :
        (k_nas_int : ℕ)
        → (c : Packet) × (build_sealed O is t enodeb mme k_nas_int p ≡ ok c)
          × Message c (images is) t enodeb mme
    built_sealed k_nas_int =
        let (a, e, b, same) = built p is clean (omega arith) in
        let (c, f, m) =
          closed a (images is) t enodeb mme k_nas_int
            (record { counted = b.counted; holds = b.holds }) (subst S1apInRange (sym same.1) g) gt
            ge gm (omega arith) in
        (c, bind_ok _ e f, m)

    -- The receiver of those bytes.
    parsed_nas :
        (rx : Packet) (h : S1ap) (k_nas_enc k_nas_int : ℕ)
        → S1apInRange h
        → parse_nas O
            (map kind is)
            k_nas_enc
            k_nas_int
            (filled rx (s1ap_image h ++ (mac (cipher (images is)) ++ cipher (images is))))
          ≡ ok (h.msg_type, h.enodeb_s1ap_ue_id, h.mme_s1ap_ue_id, is)
    parsed_nas rx h k_nas_enc k_nas_int hg =
        let ct : Bytes = cipher (images is) in
        let small : length ct ≤ length (images is) + 16 =
          O.length-encrypt crypt_key crypt_iv (images is) in
        let twenty : length (mac ct) ≡ 20 = O.length-hmac_sha1 integrity_key ct in
        let whole : Bytes = s1ap_image h ++ (mac ct ++ ct) in
        let l0 : Left (filled rx whole) whole = filled-Left rx whole (
          omega (
            arith,
            length-append (s1ap_image h) (mac ct ++ ct),
            length-append (mac ct) ct,
            length-s1ap_image h,
          )) in
        let q : Packet = record (filled rx whole) { data_ptr = 0 + s1ap_hdr_len; s1ap_hdr = h } in
        let l1 : Left q (mac ct ++ ct) =
          Left-s1ap_hdr (record (filled rx whole) { data_ptr = 0 + s1ap_hdr_len }) h (mac ct ++ ct)
            (Left-data_ptr (filled rx whole) s1ap_hdr_len (s1ap_image h) (mac ct ++ ct)
              (sym (length-s1ap_image h)) l0) in
        let (r, e, s, k) =
          extract_items-Reads (filled q (images is)) is [] clean
            (rw append-nil (filled-Reads q (images is) (omega arith))) in
        bind_ok _ (extract_s1ap_hdr_lem (filled rx whole) h (mac ct ++ ct) hg l0.reads) (
          bind_ok _ (hmac_check-Left q k_nas_int (mac ct) ct (sym twenty) l1) (
            pass hmac_failure (ap not (cmp_hmacs_refl (mac ct))) (
              bind_ok _ (dec_lem q k_nas_enc (images is) (omega arith) (omega arith))
                (bind_ok _ e refl))))

    -- A message of items in range that fits the buffer with its header, its digest and its
    -- padding, encrypted, sealed and sent in any packet, is accepted by the receiver and parsed to
    -- its type, the two ids of the UE and its items, whatever keys either side passes.
    pub nas_round_trip :
        (rx : Packet) (k_nas_enc k_nas_int k_enc_rx k_int_rx : ℕ)
        → (build_nas O is t enodeb mme k_nas_enc k_nas_int p >>= λ m.
            parse_nas O (map kind is) k_enc_rx k_int_rx (deliver m rx))
          ≡ ok (t, enodeb, mme, is)
    nas_round_trip rx k_nas_enc k_nas_int k_enc_rx k_int_rx =
        let ct : Bytes = cipher (images is) in
        let (c, e, m) = built_nas k_nas_enc k_nas_int in
        bind_ok _ e (
          rw (deliver_lem c rx (s1ap_image m.header ++ (mac ct ++ ct)) m.holds) (
            parsed_nas rx m.header k_enc_rx k_int_rx m.in_range
            ∙ (rw (m.is_type, m.is_enodeb, m.is_mme))))
