-- ===== src/Packet/Items.antt =====
-- Whole messages: the items that a sender appends and a receiver extracts in the same order.
use g_core_rest_sba.Base.{
  ℕ, ◌+◌, ◌^◌, ◌≤◌, ◌<◌, ◌≡◌, refl, sym, ap, ◌∙◌, Bool, true, false, List, [], ◌∷◌, ◌++◌,
  append_assoc, arith, Bytes, if◌then◌else◌, length, length-append, append-nil, map, lt→leb_false,
  ◌-◌,
}
use g_core_rest_sba.Base.Words.{u32}
use g_core_rest_sba.Base.Stop.{Result, ok, ◌>>=◌, bind_ok, bind_inv}
use g_core_rest_sba.Packet.Codec.{le_bytes, of_le, byte_range, length-le_bytes, of_le-le_bytes}
use g_core_rest_sba.Packet.Buffer.{
  Packet, buf_size, extract_bytes, append_bytes, append_bool, append_u8, append_u16, append_u32,
  append_int, append_u64, append_str, append_c_str, until_nul, extract_num, extract_bool,
  extract_u8, extract_u16, extract_u32, extract_int, extract_u64, extract_str,
}
use g_core_rest_sba.Packet.Contents.{Builds, Reads, append_bytes-Builds, extract_bytes-Reads}

-- The overloads of `append_item` and `extract_item` with the type of what they carry.
pub data Item : Type 0 where
  flag : Bool → Item
  octet half word int long : ℕ → Item
  text : Bytes → Item

pub data Kind : Type 0 where
  flags octets halves words ints longs texts : Kind

abbrev pub kind : Item → Kind
kind (flag b) = flags
kind (octet x) = octets
kind (half x) = halves
kind (word x) = words
kind (int x) = ints
kind (long x) = longs
kind (text s) = texts

unfoldable pub append_item : Item → Packet → Result Packet
append_item (flag b) = append_bool b
append_item (octet x) = append_u8 x
append_item (half x) = append_u16 x
append_item (word x) = append_u32 x
append_item (int x) = append_int x
append_item (long x) = append_u64 x
append_item (text s) = append_str s

unfoldable pub extract_item : Kind → Packet → Result (Item × Packet)
extract_item flags p = do (b, q) ← extract_bool p; ok (flag b, q)
extract_item octets p = do (x, q) ← extract_u8 p; ok (octet x, q)
extract_item halves p = do (x, q) ← extract_u16 p; ok (half x, q)
extract_item words p = do (x, q) ← extract_u32 p; ok (word x, q)
extract_item ints p = do (x, q) ← extract_int p; ok (int x, q)
extract_item longs p = do (x, q) ← extract_u64 p; ok (long x, q)
extract_item texts p = do (s, q) ← extract_str p; ok (text s, q)

abbrev pub append_items : List Item → Packet → Result Packet
append_items [] p = ok p
append_items (i ∷ is) p = append_item i p >>= append_items is

abbrev pub extract_items : List Kind → Packet → Result (List Item × Packet)
extract_items [] p = ok ([], p)
extract_items (k ∷ ks) p = do
  (i, q) ← extract_item k p
  (is, r) ← extract_items ks q
  ok (i ∷ is, r)

-- The value is one of the C++ type; a text holds no zero byte.
abbrev pub InRange : Item → Type 0
InRange (flag b) = Unit
InRange (octet x) = x < 2 ^ 8
InRange (half x) = x < 2 ^ 16
InRange (word x) = x < 2 ^ 32
InRange (int x) = x < 2 ^ 32
InRange (long x) = x < 2 ^ 64
InRange (text s) = until_nul s ≡ s

abbrev pub AllInRange : List Item → Type 0
AllInRange [] = Unit
AllInRange (i ∷ is) = InRange i × AllInRange is

-- The bytes that an item takes in a packet.
abbrev pub image : Item → Bytes
image (flag b) = if b then 1 ∷ [] else 0 ∷ []
image (octet x) = le_bytes 1 x
image (half x) = le_bytes 2 x
image (word x) = le_bytes 4 x
image (int x) = le_bytes 4 x
image (long x) = le_bytes 8 x
image (text s) = le_bytes 4 (length s) ++ s

abbrev pub images : List Item → Bytes
images [] = []
images (i ∷ is) = image i ++ images is

text_Builds :
    (p : Packet) (bs s : Bytes)
    → Builds p bs
    → until_nul s ≡ s
    → length bs + length (le_bytes 4 (length s) ++ s) ≤ buf_size
    → (q : Packet) × (append_str s p ≡ ok q) × Builds q (bs ++ (le_bytes 4 (length s) ++ s))
unfolding append_str append_int append_c_str
text_Builds p bs s h clean room =
    let n : length (le_bytes 4 (length s) ++ s) ≡ 4 + length s =
      length-append (le_bytes 4 (length s)) s
      ∙ ap (λ (k : ℕ). k + length s) (length-le_bytes 4 (length s)) in
    let w : u32 (length s) ≡ length s = omega arith in
    let (q, e, b) =
      append_bytes-Builds p bs (le_bytes 4 (length s)) h
        (omega (arith, length-le_bytes 4 (length s))) in
    let (r, f, c) =
      append_bytes-Builds q (bs ++ le_bytes 4 (length s)) s b
        (omega (arith, length-append bs (le_bytes 4 (length s)), length-le_bytes 4 (length s))) in
    (
      r,
      bind_ok _ (ap (λ k. append_bytes (le_bytes 4 k) p) w ∙ e)
          (ap (λ k. append_bytes k q) clean ∙ f),
      rw (append_assoc bs (le_bytes 4 (length s)) s) at c,
    )

-- Appending an item adds its image.
pub append_item-Builds :
    (p : Packet) (bs : Bytes) (i : Item)
    → Builds p bs
    → InRange i
    → length bs + length (image i) ≤ buf_size
    → (q : Packet) × (append_item i p ≡ ok q) × Builds q (bs ++ image i)
unfolding append_item append_bool append_u8 append_u16 append_u32 append_int append_u64
append_item-Builds p bs (flag b) h g room = append_bytes-Builds p bs _ h room
append_item-Builds p bs (octet x) h g room = append_bytes-Builds p bs _ h room
append_item-Builds p bs (half x) h g room = append_bytes-Builds p bs _ h room
append_item-Builds p bs (word x) h g room = append_bytes-Builds p bs _ h room
append_item-Builds p bs (int x) h g room = append_bytes-Builds p bs _ h room
append_item-Builds p bs (long x) h g room = append_bytes-Builds p bs _ h room
append_item-Builds p bs (text s) h g room = text_Builds p bs s h g room

pub append_items-Builds :
    (p : Packet) (bs : Bytes) (is : List Item)
    → Builds p bs
    → AllInRange is
    → length bs + length (images is) ≤ buf_size
    → (q : Packet) × (append_items is p ≡ ok q) × Builds q (bs ++ images is)
append_items-Builds p bs [] h g room = (p, refl, rw append-nil h)
append_items-Builds p bs (i ∷ is) h g room =
    let (q, e, b) =
      append_item-Builds p bs i h g.0 (omega (arith, length-append (image i) (images is))) in
    let (r, f, c) =
      append_items-Builds q (bs ++ image i) is b g.1
        (omega (arith, length-append (image i) (images is), length-append bs (image i))) in
    (r, bind_ok _ e f, rw (append_assoc bs (image i) (images is)) at c)

pub num_Reads :
    (p : Packet) (n x : ℕ) (ds : Bytes)
    → x < byte_range n
    → Reads p (le_bytes n x ++ ds)
    → (q : Packet) × (extract_num n p ≡ ok (x, q)) × Reads q ds × (q.gtp_hdr ≡ p.gtp_hdr)
unfolding extract_num
num_Reads p n x ds small h =
    let (q, e, r, k) = extract_bytes-Reads p n (le_bytes n x) ds (sym (length-le_bytes n x)) h in
    (q, bind_ok _ e (ap (λ n. ok (n, q)) (of_le-le_bytes n x small)), r, k)

-- Reading a number leaves the S1AP header alone.
pub extract_num-s1ap_hdr :
    (n : ℕ) (p : Packet) (x : ℕ) (q : Packet)
    → extract_num n p ≡ ok (x, q)
    → q.s1ap_hdr ≡ p.s1ap_hdr
unfolding extract_num extract_bytes
extract_num-s1ap_hdr n p x q e = ground arith

pub flag_Reads :
    (p : Packet) (b : Bool) (ds : Bytes)
    → Reads p (image (flag b) ++ ds)
    → (q : Packet) × (extract_bool p ≡ ok (b, q)) × Reads q ds × (q.gtp_hdr ≡ p.gtp_hdr)
unfolding extract_bool extract_num of_le
flag_Reads p true ds h =
    let (q, e, r, k) = extract_bytes-Reads p 1 (1 ∷ []) ds refl h in
    (q, bind_ok _ (bind_ok _ e refl) refl, r, k)
flag_Reads p false ds h =
    let (q, e, r, k) = extract_bytes-Reads p 1 (0 ∷ []) ds refl h in
    (q, bind_ok _ (bind_ok _ e refl) refl, r, k)

pub text_Reads :
    (p : Packet) (s ds : Bytes)
    → until_nul s ≡ s
    → length s ≤ buf_size
    → Reads p (image (text s) ++ ds)
    → (q : Packet) × (extract_str p ≡ ok (s, q)) × Reads q ds × (q.gtp_hdr ≡ p.gtp_hdr)
unfolding extract_str extract_int
text_Reads p s ds clean small h =
    let (q, e, r, k) =
      num_Reads p 4 (length s) (s ++ ds) (unfold byte_range in omega arith)
        (rw (append_assoc (le_bytes 4 (length s)) s ds) at h) in
    let (q', e', r', k') = extract_bytes-Reads q (length s) s ds refl r in
    (
      q',
      bind_ok _ e (
          rw (lt→leb_false (2 ^ 31 - 1) (length s) (omega arith))
            (bind_ok _ e' (ap (λ s. ok (s, q')) clean))),
      r',
      k' ∙ k,
    )

-- A text that a packet holds is no longer than the packet.
pub text_fits : (p : Packet) (s ds : Bytes) → Reads p (image (text s) ++ ds) → length s ≤ buf_size
text_fits p s ds h = omega (
  arith,
  h.within,
  h.fits,
  length-append (image (text s)) ds,
  length-append (le_bytes 4 (length s)) s,
)

-- Extracting an item takes its image off the front.
pub extract_item-Reads :
    (p : Packet) (i : Item) (ds : Bytes)
    → InRange i
    → Reads p (image i ++ ds)
    → (q : Packet) × (extract_item (kind i) p ≡ ok (i, q)) × Reads q ds × (q.gtp_hdr ≡ p.gtp_hdr)
unfolding extract_item extract_u8 extract_u16 extract_u32 extract_int extract_u64 byte_range
extract_item-Reads p (flag b) ds g h =
    let (q, e, r, k) = flag_Reads p b ds h in (q, bind_ok _ e refl, r, k)
extract_item-Reads p (octet x) ds g h =
    let (q, e, r, k) = num_Reads p 1 x ds g h in (q, bind_ok _ e refl, r, k)
extract_item-Reads p (half x) ds g h =
    let (q, e, r, k) = num_Reads p 2 x ds g h in (q, bind_ok _ e refl, r, k)
extract_item-Reads p (word x) ds g h =
    let (q, e, r, k) = num_Reads p 4 x ds g h in (q, bind_ok _ e refl, r, k)
extract_item-Reads p (int x) ds g h =
    let (q, e, r, k) = num_Reads p 4 x ds g h in (q, bind_ok _ e refl, r, k)
extract_item-Reads p (long x) ds g h =
    let (q, e, r, k) = num_Reads p 8 x ds g h in (q, bind_ok _ e refl, r, k)
extract_item-Reads p (text s) ds g h =
    let (q, e, r, k) = text_Reads p s ds g (text_fits p s ds h) h in (q, bind_ok _ e refl, r, k)

pub extract_items-Reads :
    (p : Packet) (is : List Item) (ds : Bytes)
    → AllInRange is
    → Reads p (images is ++ ds)
    → (q : Packet) × (extract_items (map kind is) p ≡ ok (is, q))
      × Reads q ds
      × (q.gtp_hdr ≡ p.gtp_hdr)
extract_items-Reads p [] ds g h = (p, refl, h, refl)
extract_items-Reads p (i ∷ is) ds g h =
    let (q, e, r, k) =
      extract_item-Reads p i (images is ++ ds) g.0
        (rw (append_assoc (image i) (images is) ds) at h) in
    let (q', e', r', k') = extract_items-Reads q is ds g.1 r in
    (q', bind_ok _ e (bind_ok _ e' refl), r', k' ∙ k)

-- Appending leaves the headers alone.
abbrev pub SameHeaders : Packet → Packet → Type 0
SameHeaders p q = (q.gtp_hdr ≡ p.gtp_hdr) × (q.s1ap_hdr ≡ p.s1ap_hdr)

append_bytes-SameHeaders : (bs : Bytes) (p q : Packet) → append_bytes bs p ≡ ok q → SameHeaders p q
unfolding append_bytes
append_bytes-SameHeaders bs p q e = ground arith

append_item-SameHeaders : (i : Item) (p q : Packet) → append_item i p ≡ ok q → SameHeaders p q
unfolding append_item append_bool append_u8 append_u16 append_u32 append_int append_u64 append_str
    append_c_str
append_item-SameHeaders (flag b) p q e = append_bytes-SameHeaders _ p q e
append_item-SameHeaders (octet x) p q e = append_bytes-SameHeaders _ p q e
append_item-SameHeaders (half x) p q e = append_bytes-SameHeaders _ p q e
append_item-SameHeaders (word x) p q e = append_bytes-SameHeaders _ p q e
append_item-SameHeaders (int x) p q e = append_bytes-SameHeaders _ p q e
append_item-SameHeaders (long x) p q e = append_bytes-SameHeaders _ p q e
append_item-SameHeaders (text s) p q e =
    let (m, f, g) = bind_inv (append_bytes _ p) _ e in
    let a = append_bytes-SameHeaders _ p m f in
    let b = append_bytes-SameHeaders _ m q g in (b.0 ∙ a.0, b.1 ∙ a.1)

pub append_items-SameHeaders :
    (is : List Item) (p q : Packet) → append_items is p ≡ ok q → SameHeaders p q
append_items-SameHeaders [] p q e = (cc, cc)
append_items-SameHeaders (i ∷ is) p q e =
    let (m, f, g) = bind_inv (append_item i p) _ e in
    let a = append_item-SameHeaders i p m f in
    let b = append_items-SameHeaders is m q g in (b.0 ∙ a.0, b.1 ∙ a.1)
