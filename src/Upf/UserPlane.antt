-- ===== src/Upf/UserPlane.antt =====
-- The user data of src/upf.cpp: `handle_uplink_udata`, `handle_downlink_udata`, and
-- `Network::get_dst_ip_addr` of src/network.cpp that the latter calls. `inet_ntop` is the C
-- library's, on the four bytes of an address.
use g_core_rest_sba.Base.{ℕ, Option, none, some, Bytes, take, drop, ◌==◌, if◌then◌else◌}
use g_core_rest_sba.Base.Stop.{Result, ok, ◌>>=◌}
use g_core_rest_sba.Packet.Buffer.{Packet, truncate, prepend_gtp_hdr, extract_gtp_hdr, copy}
use g_core_rest_sba.Upf.State.{Upf, get_imsi_ip, get_downlink_info}

-- A datagram for an address and a port, as `UdpClient::set_server` and `snd` send it.
abbrev pub Datagram : Type 0
Datagram = Bytes × ℕ × Packet

-- The destination field of the IP header at the start of the packet, which is passed by value.
unfoldable pub get_dst_ip_addr : (Bytes → Bytes) → Packet → Result Bytes
get_dst_ip_addr inet_ntop pkt = do p ← copy pkt; ok (inet_ntop (take 4 (drop 16 p.data_bytes)))

-- Everything goes to the sink, without the tunnel's header.
unfoldable pub handle_uplink_udata : Bytes → ℕ → Packet → Result Datagram
handle_uplink_udata sink_ip sink_port pkt = do p ← truncate pkt; ok (sink_ip, sink_port, p)

-- What is sent to the eNodeB that `get_downlink_info` names, if it names one.
abbrev pub tunnel : Packet → Option (ℕ × Bytes × ℕ) → Result (Option Datagram)
tunnel pkt none = ok none
tunnel pkt (some (teid, ip, port)) = do
  p ← truncate pkt
  q ← prepend_gtp_hdr 1 2 p.len teid p
  ok (some (ip, port, q))

unfoldable pub handle_downlink_udata : (Bytes → Bytes) → Upf → Packet → Result (Option Datagram)
unfolding get_dst_ip_addr
handle_downlink_udata inet_ntop u pkt = do
  ue_ip_addr ← get_dst_ip_addr inet_ntop pkt
  imsi ← get_imsi_ip u 0 0 ue_ip_addr
  if imsi == 0 then ok none else tunnel pkt (get_downlink_info u imsi)

-- One turn of `handle_s1_traffic`: type 1 is uplink data, anything else is dropped.
unfoldable pub handle_s1 : Bytes → ℕ → Packet → Result (Option Datagram)
unfolding handle_uplink_udata
handle_s1 sink_ip sink_port received = do
  pkt ← extract_gtp_hdr received
  if pkt.gtp_hdr.msg_type == 1
      then (do p ← copy pkt; d ← handle_uplink_udata sink_ip sink_port p; ok (some d))
      else ok none
