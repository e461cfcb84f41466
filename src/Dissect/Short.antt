-- ===== src/Dissect/Short.antt =====
-- nfq2/darkmagic.c: IPv4 packets whose total length is below the length of their header.
use prizma.Base.{
  ℕ, ◌+◌, ◌*◌, ◌%◌, ◌^◌, ◌≤◌, ◌<◌, ◌≡◌, List, ok, refl, byte_at, length, arith, read-in_range,
  lt→ltb,
}
use prizma.Bytes.Value.{IsBytes, big_endian, pntoh16-eq}
use prizma.Dissect.{Network, dissect_ipv4, proto_skip_ipv4}

-- If the total length is below the header length, the length of the transport layer wraps: it is
-- 2 ^ 64 and the total length less the header's length, which is more than the whole packet.
pub dissect_ipv4_short :
    (buf : List ℕ) (len : ℕ)
    → IsBytes buf
    → 20 ≤ len
    → len ≤ length buf
    → len < 2 ^ 16
    → byte_at buf 0 % 16 * 4 ≤ len
    → big_endian buf 2 2 < byte_at buf 0 % 16 * 4
    → (n : Network) × (dissect_ipv4 buf len ≡ ok n)
      × (n.skip.len + byte_at buf 0 % 16 * 4 ≡ 2 ^ 64 + big_endian buf 2 2)
      × (len < n.skip.len)
unfolding dissect_ipv4 proto_skip_ipv4
dissect_ipv4_short buf len bytes ge le small fits short =
    rw
      (
        read-in_range buf 9 (omega arith),
        pntoh16-eq buf 2 bytes (omega arith),
        lt→ltb (big_endian buf 2 2) len (omega arith),
        read-in_range buf 0 (omega arith),
        pntoh16-eq buf 6 bytes (omega arith),
      )
      (_, refl, omega arith, omega arith)
