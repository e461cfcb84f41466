-- ===== src/Quic/Integers.antt =====
-- nfq2/protocol.c: `tvb_get_varint` against RFC 9000.
use mathlib.Core.Path.{subst}
use prizma.Base.{
  ℕ, ◌+◌, ◌-◌, ◌*◌, ◌/◌, ◌%◌, ◌^◌, ◌≤◌, ◌<◌, ◌≡◌, ap, refl, ◌⊎◌, inl, inr, List, Out, ok, ◌>>=◌,
  read-in_range, byte_at, length, arith, Ensures,
}
use prizma.Base.Bits.{bit_and_mask}
use prizma.Bytes.Value.{IsBytes, big_endian, pntoh16-eq, pntoh32-eq, pntoh64-eq}
use prizma.Quic.{Varint, tvb_get_varint, tvb_get_size}

kind-cases :
    (b : ℕ) → b < 256 → (b / 2 ^ 6 ≡ 0) ⊎ ((b / 2 ^ 6 ≡ 1) ⊎ ((b / 2 ^ 6 ≡ 2) ⊎ (b / 2 ^ 6 ≡ 3)))
kind-cases b h = ground arith

pub size-bounds : (b : ℕ) → b < 256 → (1 ≤ tvb_get_size b) × (tvb_get_size b ≤ 8)
unfolding tvb_get_size
size-bounds b h = elim (kind-cases b h) [
  | inl k ↦ rw k (omega arith, omega arith)
  | inr (inl k) ↦ rw k (omega arith, omega arith)
  | inr (inr (inl k)) ↦ rw k (omega arith, omega arith)
  | inr (inr (inr k)) ↦ rw k (omega arith, omega arith)
]

-- An integer of `n` bytes: the big-endian value of the bytes without the two highest bits.
abbrev pub rfc_varint : List ℕ → ℕ → ℕ → Varint
rfc_varint buf p n = record { size = n; value = big_endian buf p n % 2 ^ (8 * n - 2) }

module _ (buf : List ℕ) (p : ℕ) (bytes : IsBytes buf) where
  one_byte : byte_at buf p % 2 ^ 6 ≡ big_endian buf p 1 % 2 ^ (8 * 1 - 2)
  one_byte = omega (arith, ap (λ (t : ℕ). byte_at buf t) {x = p + 0} {y = p} (omega arith))

  -- Where an integer of the size that its first byte tells lies in a buffer of bytes, reading it gives
  -- that size and the big-endian value of the bytes without the two highest bits.
  pub tvb_get_varint-eq :
      p < length buf
      → p + tvb_get_size (byte_at buf p) ≤ length buf
      → tvb_get_varint buf p ≡ ok (rfc_varint buf p (tvb_get_size (byte_at buf p)))
  unfolding tvb_get_varint tvb_get_size
  tvb_get_varint-eq h fits = elim (kind-cases (byte_at buf p) (bytes.at p)) [
    | inl k ↦
        rw (read-in_range buf p h, k, bit_and_mask 6 (byte_at buf p))
          (ap (λ (v : ℕ). ok (record { size = 1; value = v })) one_byte)
    | inr (inl k) ↦
        let f : p + 2 ^ 1 ≤ length buf = subst (λ (x : ℕ). p + 2 ^ x ≤ length buf) k fits in
        rw
          (
            read-in_range buf p h,
            k,
            pntoh16-eq buf p bytes (omega arith),
            bit_and_mask 14 (big_endian buf p 2),
          )
          refl
    | inr (inr (inl k)) ↦
        let f : p + 2 ^ 2 ≤ length buf = subst (λ (x : ℕ). p + 2 ^ x ≤ length buf) k fits in
        rw
          (
            read-in_range buf p h,
            k,
            pntoh32-eq buf p bytes (omega arith),
            bit_and_mask 30 (big_endian buf p 4),
          )
          refl
    | inr (inr (inr k)) ↦
        let f : p + 2 ^ 3 ≤ length buf = subst (λ (x : ℕ). p + 2 ^ x ≤ length buf) k fits in
        rw
          (
            read-in_range buf p h,
            k,
            pntoh64-eq buf p bytes (omega arith),
            bit_and_mask 62 (big_endian buf p 8),
          )
          refl
  ]

  -- A chain goes on with the integer that is read.
  pub Ensures-varint {κ ℓ} :
      {B : Type ℓ} {Q : B → Type κ} (k : Varint → Out B)
      → p < length buf
      → p + tvb_get_size (byte_at buf p) ≤ length buf
      → Ensures Q (k (rfc_varint buf p (tvb_get_size (byte_at buf p))))
      → Ensures Q (tvb_get_varint buf p >>= k)
  Ensures-varint k h fits f = rw (tvb_get_varint-eq h fits) f

  pub rfc_varint-lt : (rfc_varint buf p (tvb_get_size (byte_at buf p))).value < 2 ^ 62
  unfolding tvb_get_size
  rfc_varint-lt = elim (kind-cases (byte_at buf p) (bytes.at p)) [
    | inl k ↦ rw k (omega arith)
    | inr (inl k) ↦ rw k (omega arith)
    | inr (inr (inl k)) ↦ rw k (omega arith)
    | inr (inr (inr k)) ↦ rw k (omega arith)
  ]
