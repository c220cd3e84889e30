-- ===== src/Packet/Header.antt =====
-- src/gtp.h, gtp.cpp, s1ap.h, s1ap.cpp, diameter.h and diameter.cpp: the headers as objects, and
-- their images in memory. Compilers lay the members out in declaration order, each at a multiple of
-- its size; the padding bytes are part of the image, so they are fields here.
use g_core_rest_sba.Base.{
  ℕ, ◌^◌, ◌<◌, ◌≡◌, refl, arith, length, ◌++◌, Bytes, ltb, ◌==◌, if◌then◌else◌, take, drop,
}
use g_core_rest_sba.Base.Stop.{Result, ok, stop, bad_protocol}
use g_core_rest_sba.Packet.Codec.{le_bytes, of_le}

pub record Gtp : Type 0 where
  pub flags : ℕ
  pub pad_1 : ℕ
  pub msg_len : ℕ
  pub field_1 : ℕ
  pub field_2 : ℕ
  pub field_3 : ℕ
  pub msg_type : ℕ
  pub pad_10 : ℕ
  pub teid : ℕ

abbrev pub gtp_hdr_len : ℕ
gtp_hdr_len = 16

-- `Gtp::Gtp`, over memory that holds `m`.
unfoldable pub new_gtp : Gtp → Gtp
new_gtp m = record m { field_1 = 0; field_2 = 0; field_3 = 0 }

-- `Gtp::init`.
unfoldable pub init_gtp : Gtp → ℕ → ℕ → ℕ → ℕ → Result Gtp
init_gtp h protocol msg_type msg_len teid =
    let h' : Gtp = record h { msg_type = msg_type; msg_len = msg_len; teid = teid } in
    if protocol == 1
    then ok (record h' { flags = 48 })
    else if protocol == 2
    then ok (record h' { flags = if ltb 0 teid then 72 else 64 })
    else stop bad_protocol

unfoldable pub gtp_image : Gtp → Bytes
gtp_image h =
    le_bytes 1 h.flags
    ++ (le_bytes 1 h.pad_1
        ++ (le_bytes 2 h.msg_len
            ++ (le_bytes 2 h.field_1
                ++ (le_bytes 2 h.field_2
                    ++ (le_bytes 1 h.field_3
                        ++ (le_bytes 1 h.msg_type
                            ++ (le_bytes 2 h.pad_10 ++ le_bytes 4 h.teid)))))))

unfoldable pub gtp_of_image : Bytes → Gtp
gtp_of_image b = record {
  flags = of_le (take 1 b);
  pad_1 = of_le (take 1 (drop 1 b));
  msg_len = of_le (take 2 (drop 2 b));
  field_1 = of_le (take 2 (drop 4 b));
  field_2 = of_le (take 2 (drop 6 b));
  field_3 = of_le (take 1 (drop 8 b));
  msg_type = of_le (take 1 (drop 9 b));
  pad_10 = of_le (take 2 (drop 10 b));
  teid = of_le (take 4 (drop 12 b));
}

pub record S1ap : Type 0 where
  pub msg_len : ℕ
  pub msg_type : ℕ
  pub pad_3 : ℕ
  pub enodeb_s1ap_ue_id : ℕ
  pub mme_s1ap_ue_id : ℕ

abbrev pub s1ap_hdr_len : ℕ
s1ap_hdr_len = 12

-- `S1ap::init`.
unfoldable pub init_s1ap : S1ap → ℕ → ℕ → ℕ → ℕ → S1ap
init_s1ap h msg_type msg_len enodeb mme = record h {
  msg_type = msg_type;
  msg_len = msg_len;
  enodeb_s1ap_ue_id = enodeb;
  mme_s1ap_ue_id = mme;
}

unfoldable pub s1ap_image : S1ap → Bytes
s1ap_image h =
    le_bytes 2 h.msg_len
    ++ (le_bytes 1 h.msg_type
        ++ (le_bytes 1 h.pad_3 ++ (le_bytes 4 h.enodeb_s1ap_ue_id ++ le_bytes 4 h.mme_s1ap_ue_id)))

unfoldable pub s1ap_of_image : Bytes → S1ap
s1ap_of_image b = record {
  msg_len = of_le (take 2 b);
  msg_type = of_le (take 1 (drop 2 b));
  pad_3 = of_le (take 1 (drop 3 b));
  enodeb_s1ap_ue_id = of_le (take 4 (drop 4 b));
  mme_s1ap_ue_id = of_le (take 4 (drop 8 b));
}

pub record Diameter : Type 0 where
  pub msg_len : ℕ
  pub msg_type : ℕ
  pub pad_3 : ℕ

abbrev pub diameter_hdr_len : ℕ
diameter_hdr_len = 4

-- `Diameter::init`.
unfoldable pub init_diameter : Diameter → ℕ → ℕ → Diameter
init_diameter h msg_type msg_len = record h { msg_type = msg_type; msg_len = msg_len }

unfoldable pub diameter_image : Diameter → Bytes
diameter_image h = le_bytes 2 h.msg_len ++ (le_bytes 1 h.msg_type ++ le_bytes 1 h.pad_3)

unfoldable pub diameter_of_image : Bytes → Diameter
diameter_of_image b = record {
  msg_len = of_le (take 2 b);
  msg_type = of_le (take 1 (drop 2 b));
  pad_3 = of_le (take 1 (drop 3 b));
}

-- The members hold values of their C++ types.
pub record GtpInRange (h : Gtp) : Type 0 where
  pub flags : h.flags < 2 ^ 8
  pub pad_1 : h.pad_1 < 2 ^ 8
  pub msg_len : h.msg_len < 2 ^ 16
  pub field_1 : h.field_1 < 2 ^ 16
  pub field_2 : h.field_2 < 2 ^ 16
  pub field_3 : h.field_3 < 2 ^ 8
  pub msg_type : h.msg_type < 2 ^ 8
  pub pad_10 : h.pad_10 < 2 ^ 16
  pub teid : h.teid < 2 ^ 32

pub record S1apInRange (h : S1ap) : Type 0 where
  pub msg_len : h.msg_len < 2 ^ 16
  pub msg_type : h.msg_type < 2 ^ 8
  pub pad_3 : h.pad_3 < 2 ^ 8
  pub enodeb_s1ap_ue_id : h.enodeb_s1ap_ue_id < 2 ^ 32
  pub mme_s1ap_ue_id : h.mme_s1ap_ue_id < 2 ^ 32

pub gtp_of_image-gtp_image : (h : Gtp) → GtpInRange h → gtp_of_image (gtp_image h) ≡ h
unfolding gtp_image gtp_of_image le_bytes of_le
gtp_of_image-gtp_image h g = ground arith

pub s1ap_of_image-s1ap_image : (h : S1ap) → S1apInRange h → s1ap_of_image (s1ap_image h) ≡ h
unfolding s1ap_image s1ap_of_image le_bytes of_le
s1ap_of_image-s1ap_image h g = ground arith

pub length-gtp_image : (h : Gtp) → length (gtp_image h) ≡ gtp_hdr_len
unfolding gtp_image le_bytes
length-gtp_image h = refl

pub length-s1ap_image : (h : S1ap) → length (s1ap_image h) ≡ s1ap_hdr_len
unfolding s1ap_image le_bytes
length-s1ap_image h = refl
