-- ===== src/Ran/Traffic.antt =====
-- `class TrafficMonitor` of src/ran.cpp: user data between the UEs' tun device and the UPF, and
-- `Network::get_src_ip_addr` of src/network.cpp.
use g_core_rest_sba.Base.{ℕ, Option, none, some, Bytes, take, drop}
use g_core_rest_sba.Base.Map.{Map, empty, put_str}
use g_core_rest_sba.Base.Stop.{Result, ok, ◌>>=◌}
use g_core_rest_sba.Packet.Buffer.{Packet, copy, truncate, prepend_gtp_hdr, extract_gtp_hdr}
use g_core_rest_sba.Upf.UserPlane.{Datagram}

pub record UplinkInfo : Type 0 where
  pub s1_uteid_ul : ℕ
  pub sgw_s1_ip_addr : Bytes
  pub sgw_s1_port : ℕ

-- Where the uplink of a UE's address goes.
pub record TrafficMonitor : Type 0 where
  pub uplink_info : Map Bytes UplinkInfo

unfoldable pub new_monitor : TrafficMonitor
new_monitor = record { uplink_info = empty }

unfoldable pub update_uplink_info : TrafficMonitor → Bytes → ℕ → Bytes → ℕ → TrafficMonitor
update_uplink_info t ip_addr s1_uteid_ul sgw_s1_ip_addr sgw_s1_port = record {
  uplink_info = put_str t.uplink_info ip_addr (record {
    s1_uteid_ul = s1_uteid_ul;
    sgw_s1_ip_addr = sgw_s1_ip_addr;
    sgw_s1_port = sgw_s1_port;
  });
}

-- The source field of the IP header at the start of the packet, which is passed by value.
unfoldable pub get_src_ip_addr : (Bytes → Bytes) → Packet → Result Bytes
get_src_ip_addr inet_ntop pkt = do p ← copy pkt; ok (inet_ntop (take 4 (drop 12 p.data_bytes)))

-- What is sent for a packet, once `get_uplink_info` has looked its source up.
abbrev pub uplink_to : Packet → Option UplinkInfo → Result (Option Datagram)
uplink_to pkt none = ok none
uplink_to pkt (some i) = do
  p ← prepend_gtp_hdr 1 1 pkt.len i.s1_uteid_ul pkt
  ok (some (i.sgw_s1_ip_addr, i.sgw_s1_port, p))

-- On the packet that the tun device gave.
unfoldable pub handle_uplink_udata :
    (Bytes → Bytes) → TrafficMonitor → Packet → Result (Option Datagram)
unfolding get_src_ip_addr
handle_uplink_udata inet_ntop t pkt = do
  ip_addr ← get_src_ip_addr inet_ntop pkt
  uplink_to pkt (t.uplink_info ip_addr)

-- The packet for the tun device, of one that the UPF sent.
unfoldable pub handle_downlink_udata : Packet → Result Packet
handle_downlink_udata received = do p ← extract_gtp_hdr received; truncate p
