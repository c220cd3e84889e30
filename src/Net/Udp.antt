-- ===== src/Net/Udp.antt =====
-- The datagram side of src/udp_client.cpp, and what it is connected to.
use g_core_rest_sba.Base.{◌-◌, ◌^◌, Option, none, some}
use g_core_rest_sba.Base.Stop.{Result}
use g_core_rest_sba.Packet.Buffer.{Packet, clear_pkt, deliver}

-- A UPF in state `u` that is sent a packet: its next state and the packet that comes back, if any.
abbrev pub N4 : Type 0 → Type 0
N4 U = U → Packet → Result (U × Option Packet)

-- `upf_client.rcv(pkt)` in the packet that was sent. Without a packet within the timeout the block is
-- cleared and the length is the -1 of `recvfrom`.
abbrev pub rcv : Packet → Option Packet → Packet
rcv pkt none = record (clear_pkt pkt) { len = 2 ^ 32 - 1 }
rcv pkt (some m) = deliver m pkt
