-- ===== src/Packet/Examples.antt =====
-- Messages of packet.cpp at concrete inputs.
use g_core_rest_sba.Base.{◌≡◌, refl, [], ◌∷◌, arith, map, codes, true}
use g_core_rest_sba.Packet.Codec.{le_bytes}
use g_core_rest_sba.Base.Stop.{ok, ◌>>=◌}
use g_core_rest_sba.Packet.Header.{GtpInRange, S1apInRange}
use g_core_rest_sba.Packet.Buffer.{Packet, deliver, until_nul}
use g_core_rest_sba.Packet.Items.{flag, octet, word, text, kind}
use g_core_rest_sba.Packet.Message.{
  build_gtp, build_s1ap, parse_gtp, parse_s1ap, gtp_round_trip, s1ap_round_trip,
}

abbrev pub blank : Packet
blank = record {
  gtp_hdr = record {
    flags = 0;
    pad_1 = 0;
    msg_len = 0;
    field_1 = 0;
    field_2 = 0;
    field_3 = 0;
    msg_type = 0;
    pad_10 = 0;
    teid = 0;
  };
  s1ap_hdr = record {
    msg_len = 0;
    msg_type = 0;
    pad_3 = 0;
    enodeb_s1ap_ue_id = 0;
    mme_s1ap_ue_id = 0;
  };
  diameter_hdr = record { msg_len = 0; msg_type = 0; pad_3 = 0 };
  data_bytes = [];
  data_ptr = 0;
  len = 0;
}

pub blank-GtpInRange : GtpInRange blank.gtp_hdr
blank-GtpInRange = ground arith

pub blank-S1apInRange : S1apInRange blank.s1ap_hdr
blank-S1apInRange = ground arith

gtp_round_trip_example :
    (build_gtp (word 300 ∷ text (codes "172.16.1.3") ∷ []) 2 1 7 blank >>= λ m.
    parse_gtp (map kind (word 300 ∷ text (codes "172.16.1.3") ∷ [])) (deliver m blank))
    ≡ ok (1, 7, word 300 ∷ text (codes "172.16.1.3") ∷ [])
unfolding until_nul le_bytes
gtp_round_trip_example =
    gtp_round_trip blank (word 300 ∷ text (codes "172.16.1.3") ∷ []) 1 7 blank-GtpInRange
      (omega arith, (refl, tt)) (omega arith) (omega arith) (omega arith) blank

s1ap_round_trip_example :
    (build_s1ap (octet 5 ∷ flag true ∷ []) 2 3 4 blank >>= λ m.
    parse_s1ap (map kind (octet 5 ∷ flag true ∷ [])) (deliver m blank))
    ≡ ok (2, 3, 4, octet 5 ∷ flag true ∷ [])
unfolding le_bytes
s1ap_round_trip_example =
    s1ap_round_trip blank (octet 5 ∷ flag true ∷ []) 2 3 4 blank-S1apInRange (omega arith, (tt, tt))
      (omega arith) (omega arith) (omega arith) (omega arith) blank
