-- ===== src/Upf/Request.antt =====
-- The N4 requests as values: what each asks for, and what the UPF does to its tables and answers.
use g_core_rest_sba.Base.{
  ℕ, ◌+◌, true, Option, none, some, List, [], ◌∷◌, Bytes, ◌==◌, if◌then◌else◌,
}
use g_core_rest_sba.Base.Words.{u32}
use g_core_rest_sba.Base.Map.{put, erase, put_str, erase_str, get_or}
use g_core_rest_sba.Base.Stop.{Result, ok, stop, zero_imsi, no_uectx}
use g_core_rest_sba.Packet.Items.{Item, flag, octet, word, int, long, text}
use g_core_rest_sba.Upf.State.{Upf, UeContext, ue, ho_ue}

pub data Request : Type 0 where
  create : (smf imsi eps apn tai : ℕ) → Request
  modify : (teid eps dl : ℕ) (enodeb : Bytes) (port : ℕ) → Request
  detach : (teid eps tai : ℕ) → Request
  setup : (teid dl : ℕ) → Request
  complete : (teid : ℕ) → Request
  teardown : (teid ul : ℕ) → Request

-- A reply: its items, its message type and its TEID.
pub record Reply : Type 0 where
  pub items : List Item
  pub msg_type : ℕ
  pub teid : ℕ

-- The type, the TEID and the items of the message that carries a request.
abbrev pub msg_type_of : Request → ℕ
msg_type_of (create smf imsi eps apn tai) = 1
msg_type_of (modify teid eps dl enodeb port) = 2
msg_type_of (detach teid eps tai) = 3
msg_type_of (setup teid dl) = 4
msg_type_of (complete teid) = 5
msg_type_of (teardown teid ul) = 6

abbrev pub teid_of : Request → ℕ
teid_of (create smf imsi eps apn tai) = 0
teid_of (modify teid eps dl enodeb port) = teid
teid_of (detach teid eps tai) = teid
teid_of (setup teid dl) = teid
teid_of (complete teid) = teid
teid_of (teardown teid ul) = teid

abbrev pub items_of : Request → List Item
items_of (create smf imsi eps apn tai) = word smf ∷ long imsi ∷ octet eps ∷ long apn ∷ long tai ∷ []
items_of (modify teid eps dl enodeb port) = octet eps ∷ word dl ∷ text enodeb ∷ int port ∷ []
items_of (detach teid eps tai) = octet eps ∷ long tai ∷ []
items_of (setup teid dl) = word dl ∷ []
items_of (complete teid) = []
items_of (teardown teid ul) = word ul ∷ []

-- The subscriber that a control-plane TEID stands for; 0 if none.
abbrev pub imsi_of : Upf → ℕ → ℕ
imsi_of u teid = get_or (u.s11_id teid) 0

abbrev pub address_of : Upf → ℕ → Bytes
address_of u imsi = get_or (u.ip_addrs imsi) []

-- A session is entered in all four tables under one TEID.
abbrev pub enter : Upf → ℕ → ℕ → ℕ → ℕ → ℕ → Upf
enter u smf imsi eps apn tai = record u {
  s11_id = put u.s11_id smf imsi;
  s1_id = put u.s1_id smf imsi;
  sgi_id = put_str u.sgi_id (address_of u imsi) imsi;
  ue_ctx = put u.ue_ctx imsi (record (ue u imsi) {
    ip_addr = address_of u imsi;
    tai = tai;
    apn_in_use = apn;
    eps_bearer_id = eps;
    s11_cteid_smf = smf;
    s11_cteid_upf = smf;
    s1_uteid_ul = smf;
  });
  ip_addrs = put u.ip_addrs imsi (address_of u imsi);
}

abbrev pub leave : Upf → ℕ → UeContext → Upf
leave u imsi c = record u {
  s11_id = erase u.s11_id c.s11_cteid_upf;
  s1_id = erase u.s1_id c.s1_uteid_ul;
  sgi_id = erase_str u.sgi_id c.ip_addr;
  ue_ctx = erase u.ue_ctx imsi;
}

abbrev pub detached : Upf → ℕ → Option UeContext → Result (Upf × Reply)
detached u imsi none = stop no_uectx
detached u imsi (some c) =
    ok (leave u imsi c, record { items = flag true ∷ []; msg_type = 3; teid = c.s11_cteid_smf })

-- The answer to a request. A modification or a detach for an unknown TEID stops the process; the
-- handover requests make no such test.
unfoldable pub answer : Upf → Request → Result (Upf × Reply)
answer u (create smf imsi eps apn tai) = ok (
  enter u smf imsi eps apn tai,
  record { items = word smf ∷ text (address_of u imsi) ∷ word smf ∷ []; msg_type = 1; teid = smf },
)
answer u (modify teid eps dl enodeb port) =
    let imsi = imsi_of u teid in
    let c = ue u imsi in
    if imsi == 0
    then stop zero_imsi
    else ok (
      record u {
        ue_ctx =
            put u.ue_ctx imsi
              (record c { s1_uteid_dl = dl; enodeb_ip_addr = enodeb; enodeb_port = port });
      },
      record { items = flag true ∷ []; msg_type = 2; teid = c.s11_cteid_smf },
    )
answer u (detach teid eps tai) =
    let imsi = imsi_of u teid in
    if imsi == 0 then stop zero_imsi else detached u imsi (u.ue_ctx imsi)
answer u (setup teid dl) =
    let imsi = imsi_of u teid in
    let c = ue u imsi in
    let ul = u32 (c.s11_cteid_smf + 1) in
    ok (
      record u {
        s1_id = put u.s1_id ul imsi;
        ue_ctx = put u.ue_ctx imsi c;
        ho_ue_ctx = put u.ho_ue_ctx (u32 imsi) (record (ho_ue u imsi) { s1_uteid_dl = dl });
      },
      record { items = flag true ∷ word ul ∷ []; msg_type = 4; teid = c.s11_cteid_smf },
    )
answer u (complete teid) =
    let imsi = imsi_of u teid in
    let c = ue u imsi in
    ok (
      record u {
        ue_ctx = put u.ue_ctx imsi (record c { s1_uteid_dl = (ho_ue u imsi).s1_uteid_dl });
        ho_ue_ctx = erase u.ho_ue_ctx (u32 imsi);
      },
      record { items = flag true ∷ []; msg_type = 5; teid = c.s11_cteid_smf },
    )
answer u (teardown teid ul) =
    let imsi = imsi_of u teid in
    let c = ue u imsi in
    ok (
      record u { s1_id = erase u.s1_id ul; ue_ctx = put u.ue_ctx imsi c },
      record { items = flag true ∷ []; msg_type = 6; teid = c.s11_cteid_smf },
    )
