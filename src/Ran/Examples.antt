-- ===== src/Ran/Examples.antt =====
-- User data at concrete inputs: one packet with a twenty-byte IP header from 172.16.1.3.
use g_core_rest_sba.Base.{
  ◌≡◌, refl, ap, some, none, bytes_eq_self, if◌then◌else◌, Bytes, codes, arith, replicate, ◌++◌, [],
  ◌∷◌,
}
use g_core_rest_sba.Base.Stop.{ok}
use g_core_rest_sba.Packet.Buffer.{Packet, deliver, block, copy}
use g_core_rest_sba.Packet.Examples.{blank, blank-GtpInRange}
use g_core_rest_sba.Security.Filled.{Holds, filled, filled-Holds}
use g_core_rest_sba.Upf.UserPlane.{handle_s1}
use g_core_rest_sba.Ran.Traffic.{
  UplinkInfo, get_src_ip_addr, TrafficMonitor, new_monitor, update_uplink_info, handle_uplink_udata,
}
use g_core_rest_sba.Ran.UserPlane.{uplink_lem}

abbrev datagram : Bytes
datagram = replicate 12 0 ++ (172 ∷ 16 ∷ 1 ∷ 3 ∷ 172 ∷ 16 ∷ 1 ∷ 9 ∷ [])

abbrev from_tun : Packet
from_tun = filled blank datagram

-- An address is written as its bytes.
abbrev ntop : Bytes → Bytes
ntop ip = ip

abbrev monitor : TrafficMonitor
unfolding new_monitor update_uplink_info
monitor = update_uplink_info new_monitor (172 ∷ 16 ∷ 1 ∷ 3 ∷ []) 3 (codes "10.0.0.3") 7100

abbrev to_upf : UplinkInfo
to_upf = record { s1_uteid_ul = 3; sgw_s1_ip_addr = codes "10.0.0.3"; sgw_s1_port = 7100 }

uplink_lem_example :
    (m : Packet) × (q : Packet) × (handle_uplink_udata ntop monitor from_tun
      ≡ ok (some (codes "10.0.0.3", 7100, m)))
    × (handle_s1 (codes "10.0.0.7") 8500 (deliver m blank) ≡ ok (some (codes "10.0.0.7", 8500, q)))
    × Holds q datagram
unfolding monitor replicate get_src_ip_addr block copy
uplink_lem_example =
    uplink_lem ntop monitor to_upf from_tun blank datagram (172 ∷ 16 ∷ 1 ∷ 3 ∷ [])
      (codes "10.0.0.7") 8500 refl
      (ap (λ b. if b then some to_upf else none) (bytes_eq_self (172 ∷ 16 ∷ 1 ∷ 3 ∷ [])))
      (omega arith) (filled-Holds blank datagram) blank-GtpInRange (omega arith)
