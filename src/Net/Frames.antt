-- ===== src/Net/Frames.antt =====
-- Packets over a stream: `read_stream`, `write_stream`, `read_sctp_pkt` and `write_sctp_pkt` of
-- src/network.cpp. A connection is what its reads will find, in order.
use g_core_rest_sba.Base.{
  ℕ, zero, suc, ◌-◌, ◌^◌, List, [], ◌∷◌, ◌++◌, Bytes, length, take, drop, leb, ltb, ◌==◌,
  if◌then◌else◌,
}
use g_core_rest_sba.Base.Stop.{Result, ok, stop, overrun, ◌>>=◌}
use g_core_rest_sba.Packet.Codec.{of_le}
use g_core_rest_sba.Packet.Buffer.{Packet, buf_size, block, clear_pkt, prepend_len}
use g_core_rest_sba.Net.Stream.{is_closed}

-- Bytes that arrived together, or an error of `read`.
pub data Segment : Type 0 where
  bytes : Bytes → Segment
  failure : Segment

abbrev pub Connection : Type 0
Connection = List Segment

-- What `read` of at most `n` bytes returns, what it stores, and what is then to be read. A connection
-- at its end is closed.
abbrev pub read : ℕ → Connection → ℕ × Bytes × Connection
read n [] = (0, [], [])
read n (failure ∷ c) = (2 ^ 32 - 1, [], c)
read n (bytes bs ∷ c) =
    (length (take n bs), take n bs, if leb (length bs) n then c else bytes (drop n bs) ∷ c)

-- The loop of `read_stream`: `got` is what the buffer has, `fuel` a bound on the rounds.
unfoldable pub read_loop : ℕ → ℕ → ℕ → Bytes → Connection → ℕ × Bytes × Connection
read_loop zero len remaining_bytes got c = (0, got, c)
read_loop (suc fuel) len remaining_bytes got c =
    let (read_bytes, bs, c1) = read remaining_bytes c in
    let left = remaining_bytes - read_bytes in
    let rest = read_loop fuel len left (got ++ bs) c1 in
    if is_closed read_bytes
    then (read_bytes, got, c1)
    else if left == 0
    then (len, got ++ bs, c1)
    else rest

-- Every round that goes on has read a byte, so there are at most `len`.
unfoldable pub read_stream : ℕ → Connection → ℕ × Bytes × Connection
unfolding read_loop
read_stream len c = if is_closed len then (2 ^ 32 - 1, [], c) else read_loop len len len [] c

-- What a `write` meets: a connection that takes so many bytes at most, or an error.
pub data Acceptance : Type 0 where
  takes : ℕ → Acceptance
  refusal : Acceptance

-- What `write` of `n` bytes returns, and what the writes after it meet, in the end all bytes.
abbrev pub write : ℕ → List Acceptance → ℕ × List Acceptance
write n [] = (n, [])
write n (refusal ∷ ks) = (2 ^ 32 - 1, ks)
write n (takes k ∷ ks) = (if leb k n then k else n, ks)

unfoldable pub write_loop : ℕ → ℕ → ℕ → Bytes → List Acceptance → ℕ × Bytes
write_loop zero len remaining_bytes buf ks = (0, [])
write_loop (suc fuel) len remaining_bytes buf ks =
    let (written_bytes, ks1) = write remaining_bytes ks in
    let left = remaining_bytes - written_bytes in
    let rest = write_loop fuel len left (drop written_bytes buf) ks1 in
    if is_closed written_bytes
    then (written_bytes, [])
    else if left == 0
    then (len, take written_bytes buf)
    else (rest.0, take written_bytes buf ++ rest.1)

-- What it returns, and what the other side will be able to read.
unfoldable pub write_stream : Bytes → ℕ → List Acceptance → ℕ × Bytes
unfolding write_loop
write_stream buf len ks = if is_closed len then (2 ^ 32 - 1, []) else write_loop len len len buf ks

-- The body goes to the block of the packet, whatever length the sender announced.
abbrev pub stored : Packet → ℕ × Bytes × Connection → Result (ℕ × Packet × Connection)
stored pkt (retval, bs, c) =
    if ltb buf_size (length bs)
    then stop overrun
    else ok
        (retval, record (clear_pkt pkt) { data_bytes = block bs; data_ptr = 0; len = retval }, c)

-- The length that was read, and then the body.
abbrev pub read_body : Packet → ℕ × Bytes × Connection → Result (ℕ × Packet × Connection)
read_body pkt (retval, bs, c) =
    if is_closed retval
    then ok (retval, record (clear_pkt pkt) { data_bytes = block bs }, c)
    else stored pkt (read_stream (of_le bs) c)

unfoldable pub read_sctp_pkt : Connection → Packet → Result (ℕ × Packet × Connection)
unfolding read_stream
read_sctp_pkt c pkt = read_body pkt (read_stream 4 c)

unfoldable pub write_sctp_pkt : List Acceptance → Packet → Result (ℕ × Bytes)
unfolding write_stream
write_sctp_pkt ks pkt = do p ← prepend_len pkt; ok (write_stream p.data_bytes p.len ks)
