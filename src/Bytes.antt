-- ===== src/Bytes.antt =====
-- nfq2/helpers.c: numbers in network byte order at an offset of a buffer, and byte swaps.
-- Shifts of C are `* 2 ^ k` and `/ 2 ^ k`, each on values that fit the promoted type.
pub mod Value
pub mod Roundtrip
pub mod Swap
mod Tests
use Prim.Native.Nat.{bit_and, bit_or}
use prizma.Base.{
  ℕ, ◌+◌, ◌*◌, ◌/◌, ◌^◌, List, [], ◌∷◌, Out, ok, ◌>>=◌, read, memcpy, wrap8, wrap16, wrap32, wrap64,
}

unfoldable pub pntoh16 : List ℕ → ℕ → Out ℕ
pntoh16 buf p = do a ← read buf p; b ← read buf (p + 1); ok (bit_or (a * 2 ^ 8) b)

unfoldable pub pntoh24 : List ℕ → ℕ → Out ℕ
pntoh24 buf p = do
  a ← read buf p
  b ← read buf (p + 1)
  c ← read buf (p + 2)
  ok (bit_or (bit_or (a * 2 ^ 16) (b * 2 ^ 8)) c)

unfoldable pub pntoh32 : List ℕ → ℕ → Out ℕ
pntoh32 buf p = do
  a ← read buf p
  b ← read buf (p + 1)
  c ← read buf (p + 2)
  d ← read buf (p + 3)
  ok (bit_or (bit_or (bit_or (a * 2 ^ 24) (b * 2 ^ 16)) (c * 2 ^ 8)) d)

unfoldable pub pntoh48 : List ℕ → ℕ → Out ℕ
pntoh48 buf p = do
  a ← read buf p
  b ← read buf (p + 1)
  c ← read buf (p + 2)
  d ← read buf (p + 3)
  e ← read buf (p + 4)
  f ← read buf (p + 5)
  ok (
      bit_or
        (bit_or (bit_or (bit_or (bit_or (a * 2 ^ 40) (b * 2 ^ 32)) (c * 2 ^ 24)) (d * 2 ^ 16))
          (e * 2 ^ 8))
        f)

unfoldable pub pntoh64 : List ℕ → ℕ → Out ℕ
pntoh64 buf p = do
  a ← read buf p
  b ← read buf (p + 1)
  c ← read buf (p + 2)
  d ← read buf (p + 3)
  e ← read buf (p + 4)
  f ← read buf (p + 5)
  g ← read buf (p + 6)
  h ← read buf (p + 7)
  ok (
      bit_or
        (bit_or
          (bit_or
            (bit_or (bit_or (bit_or (bit_or (a * 2 ^ 56) (b * 2 ^ 48)) (c * 2 ^ 40)) (d * 2 ^ 32))
              (e * 2 ^ 24))
            (f * 2 ^ 16))
          (g * 2 ^ 8))
        h)

unfoldable pub phton16 : List ℕ → ℕ → ℕ → Out (List ℕ)
phton16 buf p v = memcpy buf p (wrap8 (v / 2 ^ 8) ∷ bit_and v 0xff ∷ [])

unfoldable pub phton24 : List ℕ → ℕ → ℕ → Out (List ℕ)
phton24 buf p v = memcpy buf p (wrap8 (v / 2 ^ 16) ∷ wrap8 (v / 2 ^ 8) ∷ wrap8 v ∷ [])

unfoldable pub phton32 : List ℕ → ℕ → ℕ → Out (List ℕ)
phton32 buf p v =
    memcpy buf p (wrap8 (v / 2 ^ 24) ∷ wrap8 (v / 2 ^ 16) ∷ wrap8 (v / 2 ^ 8) ∷ wrap8 v ∷ [])

unfoldable pub phton48 : List ℕ → ℕ → ℕ → Out (List ℕ)
phton48 buf p v = memcpy buf p (
    wrap8 (v / 2 ^ 40)
    ∷ wrap8 (v / 2 ^ 32)
    ∷ wrap8 (v / 2 ^ 24)
    ∷ wrap8 (v / 2 ^ 16)
    ∷ wrap8 (v / 2 ^ 8)
    ∷ wrap8 v
    ∷ [])

unfoldable pub phton64 : List ℕ → ℕ → ℕ → Out (List ℕ)
phton64 buf p v = memcpy buf p (
    wrap8 (v / 2 ^ 56)
    ∷ wrap8 (v / 2 ^ 48)
    ∷ wrap8 (v / 2 ^ 40)
    ∷ wrap8 (v / 2 ^ 32)
    ∷ wrap8 (v / 2 ^ 24)
    ∷ wrap8 (v / 2 ^ 16)
    ∷ wrap8 (v / 2 ^ 8)
    ∷ wrap8 v
    ∷ [])

-- The result of `bswap16` is returned as a `uint16_t`.
pub bswap16 : ℕ → ℕ
bswap16 u = wrap16 (bit_or (u / 2 ^ 8) (bit_and u 0xff * 2 ^ 8))

pub bswap24 : ℕ → ℕ
bswap24 u =
    bit_or (bit_or (bit_and (u / 2 ^ 16) 0xff) (bit_and u 0xff00))
      (bit_and (wrap32 (u * 2 ^ 16)) 0xff0000)

pub bswap48 : ℕ → ℕ
bswap48 u =
    bit_or
      (bit_or
        (bit_or
          (bit_or (bit_or (bit_and u 0xff0000000000 / 2 ^ 40) (bit_and u 0xff00000000 / 2 ^ 24))
            (bit_and u 0xff000000 / 2 ^ 8))
          (wrap64 (bit_and u 0xff0000 * 2 ^ 8)))
        (wrap64 (bit_and u 0xff00 * 2 ^ 24)))
      (wrap64 (bit_and u 0xff * 2 ^ 40))
