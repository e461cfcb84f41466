-- ===== src/Quic/Tests.antt =====
-- An integer of QUIC in two bytes.
use prizma.Base.{ℕ, ◌≡◌, refl, List, [], ◌∷◌, ok, byte_at, arith}
use prizma.Bytes.Value.{all_bytes-IsBytes}
use prizma.Quic.{tvb_get_varint, tvb_get_size}
use prizma.Quic.Integers.{rfc_varint, tvb_get_varint-eq}

-- The number 15293 in two bytes.
abbrev number : List ℕ
number = 0x7b ∷ 0xbd ∷ []

size-two : tvb_get_size (byte_at number 0) ≡ 2
unfolding tvb_get_size
size-two = refl

tvb_get_varint-eq_example :
    tvb_get_varint number 0 ≡ ok (rfc_varint number 0 (tvb_get_size (byte_at number 0)))
tvb_get_varint-eq_example =
    tvb_get_varint-eq number 0 (all_bytes-IsBytes number refl) (omega arith)
      (omega (arith, size-two))
