-- ===== src/Net/Examples.antt =====
-- Frames at concrete inputs.
use g_core_rest_sba.Base.{
  ◌+◌, ◌≡◌, refl, sym, append_assoc, [], ◌∷◌, ◌++◌, Bytes, length, replicate, arith,
}
use g_core_rest_sba.Base.Stop.{ok, stop, overrun}
use g_core_rest_sba.Packet.Codec.{le_bytes}
use g_core_rest_sba.Packet.Buffer.{deliver}
use g_core_rest_sba.Packet.Examples.{blank}
use g_core_rest_sba.Security.Filled.{filled, filled-Holds}
use g_core_rest_sba.Net.Frames.{
  Connection, takes, bytes, failure, read_stream, read_loop, read_sctp_pkt, write_sctp_pkt,
}
use g_core_rest_sba.Net.Framing.{stream, Whole, read_stream_ends}
use g_core_rest_sba.Net.RoundTrip.{frame_round_trip, long_frame_overruns}

-- Two bytes of contents that arrive in three pieces, the last with a byte of the next frame.
abbrev pieces : Connection
pieces = bytes (2 ∷ 0 ∷ []) ∷ bytes (0 ∷ 0 ∷ 7 ∷ []) ∷ bytes (8 ∷ 1 ∷ []) ∷ []

frame_round_trip_example :
    (d : Connection) × (write_sctp_pkt (takes 3 ∷ []) (filled blank (7 ∷ 8 ∷ []))
      ≡ ok (4 + 2, le_bytes 4 2 ++ (7 ∷ 8 ∷ [])))
    × (read_sctp_pkt pieces blank ≡ ok (2, deliver (filled blank (7 ∷ 8 ∷ [])) blank, d))
    × (stream d ≡ 1 ∷ [])
    × Whole d
unfolding le_bytes
frame_round_trip_example =
    frame_round_trip (7 ∷ 8 ∷ []) (1 ∷ []) pieces (omega arith) (omega arith)
      (omega arith, (omega arith, (omega arith, tt))) refl blank (filled blank (7 ∷ 8 ∷ []))
      (3 ∷ []) (filled-Holds blank (7 ∷ 8 ∷ [])) (omega arith) (omega arith, tt)

-- A frame one byte longer than a packet.
abbrev long : Bytes
long = replicate 1025 0

long_frame_overruns_example :
    read_sctp_pkt (bytes (le_bytes 4 (length long)) ∷ bytes long ∷ []) blank ≡ stop overrun
unfolding replicate le_bytes
long_frame_overruns_example =
    long_frame_overruns long [] (bytes (le_bytes 4 (length long)) ∷ bytes long ∷ []) (omega arith)
      (omega arith) (omega arith, (omega arith, tt))
      (sym (append_assoc (le_bytes 4 (length long)) long [])) blank (omega arith)

read_stream_ends_example :
    read_stream 3 (bytes (7 ∷ []) ∷ failure ∷ [])
    ≡ read_loop (3 + 5) 3 3 [] (bytes (7 ∷ []) ∷ failure ∷ [])
read_stream_ends_example =
    read_stream_ends 3 5 (bytes (7 ∷ []) ∷ failure ∷ []) (omega arith) (omega arith)
