-- ===== src/Packet/Buffer.antt =====
-- `class Packet`: a 1024-byte block, a cursor `data_ptr` and the length `len` of what it holds. No
-- operation of the class checks the block's bounds: an access outside is `overrun`.
use g_core_rest_sba.Base.{
  ℕ, zero, suc, ◌+◌, ◌-◌, ◌^◌, Bool, true, false, List, [], ◌∷◌, ◌++◌, Bytes, ltb, leb, ◌==◌,
  if◌then◌else◌, length, take, drop, replicate,
}
use g_core_rest_sba.Base.Words.{u16, u32}
use g_core_rest_sba.Base.Stop.{Result, ok, stop, overrun, bad_length, ◌>>=◌}
use g_core_rest_sba.Packet.Codec.{le_bytes, of_le}
use g_core_rest_sba.Packet.Header.{
  Gtp, S1ap, Diameter, new_gtp, init_gtp, gtp_image, gtp_of_image, gtp_hdr_len, init_s1ap,
  s1ap_image, s1ap_of_image, s1ap_hdr_len, init_diameter, diameter_image, diameter_of_image,
  diameter_hdr_len,
}

pub record Packet : Type 0 where
  pub gtp_hdr : Gtp
  pub s1ap_hdr : S1ap
  pub diameter_hdr : Diameter
  pub data_bytes : Bytes
  pub data_ptr : ℕ
  pub len : ℕ

abbrev pub buf_size : ℕ
buf_size = 1024

-- `Utils::allocate_uint8_mem(BUF_SIZE)` and `memmove` to its start: `bs`, then zeros.
unfoldable pub block : Bytes → Bytes
unfolding replicate
block bs = bs ++ replicate (buf_size - length bs) 0

-- `Packet::Packet()`, over memory that holds the three headers.
unfoldable pub new_packet : Gtp → S1ap → Diameter → Packet
unfolding block new_gtp
new_packet g s d = record {
  gtp_hdr = new_gtp g;
  s1ap_hdr = s;
  diameter_hdr = d;
  data_bytes = block [];
  data_ptr = 0;
  len = 0;
}

-- `Packet::clear_pkt`.
unfoldable pub clear_pkt : Packet → Packet
unfolding block
clear_pkt p = record p { data_bytes = block []; data_ptr = 0; len = 0 }

-- `Packet::Packet(const Packet &)`, which every call by value makes: `len` bytes are copied.
unfoldable pub copy : Packet → Result Packet
unfolding block
copy p =
    if leb p.len buf_size
    then ok (record p { data_bytes = block (take p.len p.data_bytes) })
    else stop overrun

-- The common body of the `append_item`s: `memmove` to the cursor, both counts grow.
unfoldable pub append_bytes : Bytes → Packet → Result Packet
append_bytes bs p =
    let n = length bs in
    if leb (p.data_ptr + n) buf_size
    then ok (record p {
      data_bytes = take p.data_ptr p.data_bytes ++ (bs ++ drop (p.data_ptr + n) p.data_bytes);
      data_ptr = p.data_ptr + n;
      len = p.len + n;
    })
    else stop overrun

unfoldable pub append_bool : Bool → Packet → Result Packet
append_bool b = append_bytes (if b then 1 ∷ [] else 0 ∷ [])

unfoldable pub append_u8 : ℕ → Packet → Result Packet
append_u8 x = append_bytes (le_bytes 1 x)

unfoldable pub append_u16 : ℕ → Packet → Result Packet
append_u16 x = append_bytes (le_bytes 2 x)

unfoldable pub append_u32 : ℕ → Packet → Result Packet
append_u32 x = append_bytes (le_bytes 4 x)

-- `append_item(int)`; an `int` is its bit pattern, below 2 ^ 32.
unfoldable pub append_int : ℕ → Packet → Result Packet
append_int x = append_bytes (le_bytes 4 x)

unfoldable pub append_u64 : ℕ → Packet → Result Packet
append_u64 x = append_bytes (le_bytes 8 x)

-- `append_item(vector<uint64_t>)`.
unfoldable pub append_u64s : List ℕ → Packet → Result Packet
append_u64s [] p = ok p
append_u64s (x ∷ xs) p = append_u64 x p >>= append_u64s xs

-- What `strlen` counts: the bytes before the first zero.
unfoldable pub until_nul : Bytes → Bytes
until_nul [] = []
until_nul (b ∷ bs) = if b == 0 then [] else b ∷ until_nul bs

-- `append_item(const char *)` and `append_item(string)`.
unfoldable pub append_c_str : Bytes → Packet → Result Packet
unfolding until_nul
append_c_str s = append_bytes (until_nul s)

unfoldable pub append_str : Bytes → Packet → Result Packet
append_str s p = append_int (u32 (length s)) p >>= append_c_str s

-- The common body of `prepend_item` and of the header functions: a new block with `bs` in front.
unfoldable pub prepend_item : Bytes → Packet → Result Packet
unfolding block
prepend_item bs p =
    let n = length bs in
    if leb (n + p.len) buf_size
    then ok (record p {
      data_bytes = block (bs ++ take p.len p.data_bytes);
      data_ptr = p.data_ptr + n;
      len = p.len + n;
    })
    else stop overrun

-- The third argument is a `uint16_t`: the callers pass `pkt.len`.
unfoldable pub prepend_gtp_hdr : ℕ → ℕ → ℕ → ℕ → Packet → Result Packet
prepend_gtp_hdr protocol msg_type msg_len teid p = do
  h ← init_gtp p.gtp_hdr protocol msg_type (u16 msg_len) teid
  prepend_item (gtp_image h) (record p { gtp_hdr = h })

unfoldable pub prepend_s1ap_hdr : ℕ → ℕ → ℕ → ℕ → Packet → Result Packet
prepend_s1ap_hdr msg_type msg_len enodeb mme p =
    let h = init_s1ap p.s1ap_hdr msg_type (u16 msg_len) enodeb mme in
    prepend_item (s1ap_image h) (record p { s1ap_hdr = h })

unfoldable pub prepend_diameter_hdr : ℕ → ℕ → Packet → Result Packet
prepend_diameter_hdr msg_type msg_len p =
    let h = init_diameter p.diameter_hdr msg_type (u16 msg_len) in
    prepend_item (diameter_image h) (record p { diameter_hdr = h })

-- `prepend_len`: the length in an `int`, in front of the contents.
unfoldable pub prepend_len : Packet → Result Packet
prepend_len p = prepend_item (le_bytes 4 p.len) p

-- The common body of the `extract_item`s: `memmove` from the cursor; `len` is not consulted.
unfoldable pub extract_bytes : ℕ → Packet → Result (Bytes × Packet)
extract_bytes n p =
    if leb (p.data_ptr + n) buf_size
    then ok (take n (drop p.data_ptr p.data_bytes), record p { data_ptr = p.data_ptr + n })
    else stop overrun

unfoldable pub extract_num : ℕ → Packet → Result (ℕ × Packet)
extract_num n p = do (bs, p') ← extract_bytes n p; ok (of_le bs, p')

unfoldable pub extract_bool : Packet → Result (Bool × Packet)
extract_bool p = do (x, p') ← extract_num 1 p; ok (if x == 0 then false else true, p')

unfoldable pub extract_u8 : Packet → Result (ℕ × Packet)
extract_u8 = extract_num 1

unfoldable pub extract_u16 : Packet → Result (ℕ × Packet)
extract_u16 = extract_num 2

unfoldable pub extract_u32 : Packet → Result (ℕ × Packet)
extract_u32 = extract_num 4

unfoldable pub extract_int : Packet → Result (ℕ × Packet)
extract_int = extract_num 4

unfoldable pub extract_u64 : Packet → Result (ℕ × Packet)
extract_u64 = extract_num 8

-- `extract_item(vector<uint64_t> &, int)`.
unfoldable pub extract_u64s : ℕ → Packet → Result (List ℕ × Packet)
extract_u64s zero p = ok ([], p)
extract_u64s (suc n) p = do (x, p') ← extract_u64 p; (xs, p'') ← extract_u64s n p'; ok (x ∷ xs, p'')

-- `extract_item(string &)`: a length that is negative as an `int` makes `allocate_str_mem` exit.
unfoldable pub extract_str : Packet → Result (Bytes × Packet)
unfolding until_nul
extract_str p = do
  (n, p') ← extract_int p
  if leb (2 ^ 31 - 1) n
      then stop bad_length
      else do (bs, p'') ← extract_bytes n p'; ok (until_nul bs, p'')

unfoldable pub extract_gtp_hdr : Packet → Result Packet
extract_gtp_hdr p = do
  (bs, p') ← extract_bytes gtp_hdr_len p
  ok (record p' { gtp_hdr = gtp_of_image bs })

unfoldable pub extract_s1ap_hdr : Packet → Result Packet
extract_s1ap_hdr p = do
  (bs, p') ← extract_bytes s1ap_hdr_len p
  ok (record p' { s1ap_hdr = s1ap_of_image bs })

unfoldable pub extract_diameter_hdr : Packet → Result Packet
extract_diameter_hdr p = do
  (bs, p') ← extract_bytes diameter_hdr_len p
  ok (record p' { diameter_hdr = diameter_of_image bs })

-- `Packet::truncate`: what the cursor has passed is dropped. With `data_ptr` beyond `len` the
-- count is negative, which `memmove` takes for a huge one.
unfoldable pub truncate : Packet → Result Packet
unfolding block
truncate p =
    if ltb p.len p.data_ptr
    then stop overrun
    else if leb p.len buf_size
    then ok (record p {
      data_bytes = block (take (p.len - p.data_ptr) (drop p.data_ptr p.data_bytes));
      data_ptr = 0;
      len = p.len - p.data_ptr;
    })
    else stop overrun

-- A packet sent by `snd` as another host's `rcv` fills it in (udp_server.cpp, udp_client.cpp,
-- sctp_client.cpp, sctp_server.cpp): a cleared block with `len` bytes, the cursor at its start. The
-- receiver's own headers stay in `q` until it extracts them.
unfoldable pub deliver : Packet → Packet → Packet
unfolding block
deliver p q = record q { data_bytes = block (take p.len p.data_bytes); data_ptr = 0; len = p.len }
