-- ===== src/Packet/Copies.antt =====
-- A packet passed on by value, as the handlers of src/amf_server.cpp get it.
use g_core_rest_sba.Base.{ℕ, ◌≡◌, sym, ap, ◌∙◌, subst, List, arith}
use g_core_rest_sba.Base.Stop.{ok}
use g_core_rest_sba.Packet.Header.{S1ap, S1apInRange}
use g_core_rest_sba.Packet.Buffer.{Packet, copy}
use g_core_rest_sba.Packet.Contents.{copy-Reads}
use g_core_rest_sba.Packet.Items.{Item, images}
use g_core_rest_sba.Packet.Message.{ArrivedS1}

copy-s1ap_hdr : (q c : Packet) → copy q ≡ ok c → c.s1ap_hdr ≡ q.s1ap_hdr
unfolding copy
copy-s1ap_hdr q c e = ground arith

-- A packet that arrived, passed on by value.
pub copied :
    (q : Packet) (t enodeb mme : ℕ) (is : List Item)
    → ArrivedS1 q t enodeb mme is
    → (c : Packet) × (copy q ≡ ok c) × ArrivedS1 c t enodeb mme is
copied q t enodeb mme is a =
    let (c, e, reads, _) = copy-Reads q (images is) a.reads in
    let same = copy-s1ap_hdr q c e in
    (
      c,
      e,
      record {
        is_type = ap (λ (h : S1ap). h.msg_type) same ∙ a.is_type;
        is_enodeb = ap (λ (h : S1ap). h.enodeb_s1ap_ue_id) same ∙ a.is_enodeb;
        is_mme = ap (λ (h : S1ap). h.mme_s1ap_ue_id) same ∙ a.is_mme;
        in_range = subst S1apInRange (sym same) a.in_range;
        reads = reads;
      },
    )
