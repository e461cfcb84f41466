-- ===== src/Dissect/Tests.antt =====
-- Runs of the dissection on small packets.
use prizma.Base.{
  ◌+◌, ◌^◌, ◌<◌, Ensures, inr, arith, ℕ, ◌≡◌, refl, false, some, List, [], ◌∷◌, ok, replicate,
}
use prizma.Bytes.{pntoh16}
use prizma.Bytes.Value.{all_bytes-IsBytes}
use prizma.Dissect.Bounds.{InPacket, dissect-InPacket}
use prizma.Dissect.Short.{dissect_ipv4_short}
use prizma.Dissect.{
  Network, blank, proto_dissect_l3l4, dissect_ipv4, finish, transport, checked, proto_check_ipv4,
  proto_check_ipv4_payload, proto_skip_ipv4, proto_check_udp, proto_check_udp_payload,
}

-- IPv4, 20 + 8 + 3 bytes, UDP.
abbrev udp_packet : List ℕ
udp_packet =
    0x45 ∷ 0 ∷ 0 ∷ 31 ∷ 0 ∷ 0 ∷ 0 ∷ 0 ∷ 64 ∷ 17 ∷ 0 ∷ 0 ∷ 10 ∷ 0 ∷ 0 ∷ 1 ∷ 10 ∷ 0 ∷ 0 ∷ 2 ∷ 0 ∷ 53
    ∷ 0 ∷ 54 ∷ 0 ∷ 11 ∷ 0 ∷ 0 ∷ 1 ∷ 2 ∷ 3 ∷ []

udp_dissected :
    proto_dissect_l3l4 udp_packet 31 false
    ≡ ok (record (blank 31) {
      ip = some 0;
      len_l3 = 20;
      proto = 17;
      udp = some 20;
      len_l4 = 8;
      transport_len = 11;
      payload = 28;
      len_payload = 3;
    })
unfolding proto_dissect_l3l4 dissect_ipv4 finish transport checked proto_check_ipv4
    proto_check_ipv4_payload proto_skip_ipv4 proto_check_udp proto_check_udp_payload pntoh16
udp_dissected = refl

-- A header of 20 bytes that claims a total length of 10.
abbrev short_packet : List ℕ
short_packet = 0x45 ∷ 0 ∷ 0 ∷ 10 ∷ replicate 16 0

dissect-InPacket_example : Ensures (InPacket 31) (proto_dissect_l3l4 udp_packet 31 false)
dissect-InPacket_example =
    dissect-InPacket udp_packet 31 (all_bytes-IsBytes udp_packet refl) (omega arith) (omega arith)
      (inr (omega arith))

dissect_ipv4_short_example :
    (n : Network) × (dissect_ipv4 short_packet 20 ≡ ok n)
    × (n.skip.len + 20 ≡ 2 ^ 64 + 10)
    × (20 < n.skip.len)
dissect_ipv4_short_example =
    dissect_ipv4_short short_packet 20 (all_bytes-IsBytes short_packet refl) (omega arith)
      (omega arith) (omega arith) (omega arith) (omega arith)
