-- ===== src/Bytes/Swap.antt =====
-- nfq2/helpers.c: `bswap16`, `bswap24` and `bswap48`.
use Prim.Native.Nat.{bit_or}
use prizma.Base.{ℕ, ◌+◌, ◌*◌, ◌/◌, ◌%◌, ◌^◌, ◌<◌, ◌≡◌, ap, wrap32, wrap64, arith}
use prizma.Base.Bits.{bit_or_add_high, bit_and_mask, bit_and_field}
use prizma.Bytes.{bswap16, bswap24, bswap48}

-- The byte `k` of a number, the lowest first.
abbrev pub octet : ℕ → ℕ → ℕ
octet k u = u / 2 ^ (8 * k) % 2 ^ 8

pub bswap16-eq : (u : ℕ) → u < 2 ^ 16 → bswap16 u ≡ octet 0 u * 2 ^ 8 + octet 1 u
unfolding bswap16
bswap16-eq u h = omega (
  arith,
  ap (λ (t : ℕ). bit_or (u / 2 ^ 8) (t * 2 ^ 8)) (bit_and_mask 8 u),
  bit_or_add_high 8 (u % 2 ^ 8) (u / 2 ^ 8) (u % 2 ^ 8 * 2 ^ 8) (omega arith) (omega arith),
)

pub bswap24-eq :
    (u : ℕ) → u < 2 ^ 24 → bswap24 u ≡ octet 0 u * 2 ^ 16 + octet 1 u * 2 ^ 8 + octet 2 u
unfolding bswap24
bswap24-eq u h =
    rw
      (
        bit_and_mask 8 (u / 2 ^ 16),
        bit_and_field 8 8 u,
        bit_and_field 16 8 (wrap32 (u * 2 ^ 16)),
        bit_or_add_high 8 (u / 2 ^ 8 % 2 ^ 8) (u / 2 ^ 16 % 2 ^ 8) (u / 2 ^ 8 % 2 ^ 8 * 2 ^ 8)
            (omega arith) (omega arith),
        bit_or_add_high 16 (wrap32 (u * 2 ^ 16) / 2 ^ 16 % 2 ^ 8)
            (u / 2 ^ 16 % 2 ^ 8 + u / 2 ^ 8 % 2 ^ 8 * 2 ^ 8)
            (wrap32 (u * 2 ^ 16) / 2 ^ 16 % 2 ^ 8 * 2 ^ 16) (omega arith) (omega arith),
      )
      (omega arith)

pub bswap48-eq :
    (u : ℕ)
    → u < 2 ^ 48
    → bswap48 u
      ≡ octet 0 u * 2 ^ 40
        + octet 1 u * 2 ^ 32
        + octet 2 u * 2 ^ 24
        + octet 3 u * 2 ^ 16
        + octet 4 u * 2 ^ 8
        + octet 5 u
unfolding bswap48
bswap48-eq u h =
    rw
      (
        bit_and_field 40 8 u,
        bit_and_field 32 8 u,
        bit_and_field 24 8 u,
        bit_and_field 16 8 u,
        bit_and_field 8 8 u,
        bit_and_mask 8 u,
        bit_or_add_high 8 (u / 2 ^ 32 % 2 ^ 8) (u / 2 ^ 40 % 2 ^ 8 * 2 ^ 40 / 2 ^ 40)
            (u / 2 ^ 32 % 2 ^ 8 * 2 ^ 32 / 2 ^ 24) (omega arith) (omega arith),
        bit_or_add_high 16 (u / 2 ^ 24 % 2 ^ 8)
            (u / 2 ^ 40 % 2 ^ 8 * 2 ^ 40 / 2 ^ 40 + u / 2 ^ 32 % 2 ^ 8 * 2 ^ 32 / 2 ^ 24)
            (u / 2 ^ 24 % 2 ^ 8 * 2 ^ 24 / 2 ^ 8) (omega arith) (omega arith),
        bit_or_add_high 24 (u / 2 ^ 16 % 2 ^ 8)
            (u / 2 ^ 40 % 2 ^ 8 * 2 ^ 40 / 2 ^ 40
              + u / 2 ^ 32 % 2 ^ 8 * 2 ^ 32 / 2 ^ 24
              + u / 2 ^ 24 % 2 ^ 8 * 2 ^ 24 / 2 ^ 8)
            (wrap64 (u / 2 ^ 16 % 2 ^ 8 * 2 ^ 16 * 2 ^ 8)) (omega arith) (omega arith),
        bit_or_add_high 32 (u / 2 ^ 8 % 2 ^ 8)
            (u / 2 ^ 40 % 2 ^ 8 * 2 ^ 40 / 2 ^ 40
              + u / 2 ^ 32 % 2 ^ 8 * 2 ^ 32 / 2 ^ 24
              + u / 2 ^ 24 % 2 ^ 8 * 2 ^ 24 / 2 ^ 8
              + wrap64 (u / 2 ^ 16 % 2 ^ 8 * 2 ^ 16 * 2 ^ 8))
            (wrap64 (u / 2 ^ 8 % 2 ^ 8 * 2 ^ 8 * 2 ^ 24)) (omega arith) (omega arith),
        bit_or_add_high 40 (u % 2 ^ 8)
            (u / 2 ^ 40 % 2 ^ 8 * 2 ^ 40 / 2 ^ 40
              + u / 2 ^ 32 % 2 ^ 8 * 2 ^ 32 / 2 ^ 24
              + u / 2 ^ 24 % 2 ^ 8 * 2 ^ 24 / 2 ^ 8
              + wrap64 (u / 2 ^ 16 % 2 ^ 8 * 2 ^ 16 * 2 ^ 8)
              + wrap64 (u / 2 ^ 8 % 2 ^ 8 * 2 ^ 8 * 2 ^ 24))
            (wrap64 (u % 2 ^ 8 * 2 ^ 40)) (omega arith) (omega arith),
      )
      (omega arith)

-- Swapping twice gives the number back, at each of the three widths.
bswap_twice :
    (u v w : ℕ)
    → u < 2 ^ 16
    → v < 2 ^ 24
    → w < 2 ^ 48
    → (bswap16 (bswap16 u) ≡ u) × (bswap24 (bswap24 v) ≡ v) × (bswap48 (bswap48 w) ≡ w)
bswap_twice u v w a b c = (
  omega (arith, bswap16-eq u a, bswap16-eq (bswap16 u) (omega (arith, bswap16-eq u a))),
  omega (arith, bswap24-eq v b, bswap24-eq (bswap24 v) (omega (arith, bswap24-eq v b))),
  omega (arith, bswap48-eq w c, bswap48-eq (bswap48 w) (omega (arith, bswap48-eq w c))),
)
