-- ===== src/Lib.antt =====
-- A 5G core of separate network functions (AMF, AUSF, UDM, SMF, UPF) with a RAN simulator. The UE
-- attaches through the RAN and the AMF; the AMF gets authentication vectors from the AUSF, which asks
-- the UDM, and has the SMF set up a session, which asks the UPF over N4. Between the functions run
-- HTTP requests with JSON bodies, between the SMF or the AMF and the UPF packets over UDP.
--
-- Base: lists, words, tests, maps, and the monad of code that may stop the process (src/utils.cpp,
--   whose `handle_type1_error` exits).
-- Packet: src/packet.cpp, src/gtp.cpp, src/s1ap.cpp and src/diameter.cpp. A packet is a record of the
--   three headers, the block of 1024 bytes, the cursor and the length. `Packet.Items` has the
--   overloads of `append_item` and `extract_item` as one type of items; `Packet.Message` has whole
--   messages. The block's bounds, which the source does not check, are written out: an access outside
--   is the stop `overrun`.
-- Telecom: src/telecom.cpp and the derivation of TEIDs in src/amf.cpp. `to_string` has twenty rounds,
--   enough for any 64-bit number.
-- Upf: src/upf.cpp and src/upf_server.cpp. `Upf.State` has the tables and their private functions,
--   `Upf.Handlers` the handlers on packets, `Upf.Request` the requests as values and the
--   specification `answer`, `Upf.Refinement` the handlers against it, `Upf.Sessions` the invariant,
--   `Upf.Exchange` sequences of packets, `Upf.Changes` and `Upf.Downlink` what they do,
--   `Upf.Addresses` the address plan, `Upf.Startup` the first sessions.
-- Json: what the functions use of the JSON library (src/udm.cpp and its peers call its `asUInt64`,
--   `asUInt`, `asString`, `toStyledString`), a record of operations and laws that the modules below
--   take as a parameter; `Json.Examples` fills it with a concrete one.
-- Udm: src/udm.cpp and src/udm_server.cpp. `Udm.State` has the context of a GUTI with its database,
--   `Udm.Handlers` and `Udm.Sessions` the handlers on JSON, `Udm.Server` the routes, `Udm.Client` a
--   request of a peer; `Udm.Isolation` and `Udm.Keys` what requests leave alone.
-- Rest: `send_and_receive` of src/rest_utils.cpp over the response of a peer.
-- Security: src/security.cpp. `Security.Openssl` is what it uses of OpenSSL, a record of operations and
--   laws; `Security.Crypt` the two classes, with a protected message as both sides make it,
--   `Security.Filled` packets of known contents, `Security.Seal` what is accepted, `Security.Arrival` a
--   message on its way.
-- Net: `Net.Udp` is the exchange of a datagram as src/udp_client.cpp has it, `Net.Stream` the test of
--   a closed connection that the users of src/sctp_client.cpp and src/sctp_server.cpp make.
--   `Net.Frames` has the frames over a stream of src/network.cpp: a connection is the list of what its
--   reads find, the writes meet a list of what they take, and the loops have one round for each byte that is wanted. `Net.Framing` and
--   `Net.RoundTrip` are about them.
-- Smf: `Smf.Handlers` has the handlers of src/smf.cpp over any UDM and any UPF, `Smf.Server` the
--   conversions and routes of src/smf_server.cpp; `Smf.Release` and `Smf.Releasing` are a release with
--   both, without and with its JSON bodies, `Smf.Creating` and `Smf.Creation` a creation,
--   `Smf.Modification` the modification of a bearer, `Smf.Lifecycle` a session from its creation
--   to its release.
-- Ausf: src/ausf.cpp and src/ausf_server.cpp, over any UDM.
-- Ran: src/ran.cpp. `Ran.Context` has the UE context and the authentication, `Ran.Session` the
--   security mode, the session and the detach, `Ran.Handover` the handover, `Ran.Traffic` the traffic
--   monitor, `Ran.UserPlane` user data through the monitor and the UPF. A method takes the packet
--   received and gives the one sent.
-- Amf: src/amf.cpp and src/amf_server.cpp. `Amf.State` has the context and the tables, `Amf.Attach`,
--   `Amf.Security`, `Amf.Session`, `Amf.Bearer` and `Amf.Handover` the handlers over any peers,
--   `Amf.Server` is `handle_ue`, which gives a received packet to them. `Amf.Numbers`, `Amf.Invariant`
--   and `Amf.Serving` are about its tables, `Amf.Admission` about who is let in, `Amf.Tunnel` about
--   the handover with the UPF.
-- Attach: the functions together. `Attach.Network` connects them, `Attach.Vectors`,
--   `Attach.Challenge`, `Attach.Answer` and `Attach.Judgement` follow the steps of the authentication,
--   `Attach.Run` has the whole run through `handle_ue`, and `Attach.NasKeys` the requests for the NAS keys; `Attach.SecurityMode` and
--   `Attach.Secured` are the security mode that follows, `Attach.Detach` and `Attach.Detached` the
--   detach, with the SMF and the UPF behind the AMF.
--
-- A map is the function that a lookup computes; `m[k]` on a missing key creates the entry that the
-- constructor makes, with `junk` for a member that it leaves uninitialised. A handler is one step: the
-- locks are left out, and so are sockets, threads, logging, MySQL, Consul and HTTP transport. The C
-- library's `inet_ntop` is a parameter. The message broker and the traffic generator are not modelled.
pub mod Base
pub mod Packet
pub mod Net
pub mod Telecom
pub mod Upf
pub mod Json
pub mod Udm
pub mod Rest
pub mod Security
pub mod Smf
pub mod Ausf
pub mod Ran
pub mod Amf
pub mod Attach
