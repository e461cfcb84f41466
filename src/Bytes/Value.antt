-- ===== src/Bytes/Value.antt =====
-- nfq2/helpers.c: the big-endian readers, and the base-256 value of bytes.
use prizma.Base.{
  Out, ◌>>=◌, Ensures, Bool, true, ◌&&◌, ltb, ℕ, zero, suc, ◌+◌, ◌*◌, ◌^◌, ◌≤◌, ◌<◌, ◌≡◌, ap, List,
  ok, byte_at, length, read-in_range, arith, [], ◌∷◌,
}
use prizma.Base.Bits.{bit_or_add}
use prizma.Bytes.{pntoh16, pntoh24, pntoh32, pntoh48, pntoh64}

-- The value of the `n` bytes from offset `p` on, the first one the highest.
abbrev pub big_endian : List ℕ → ℕ → ℕ → ℕ
big_endian buf p zero = 0
big_endian buf p (suc n) = big_endian buf p n * 2 ^ 8 + byte_at buf (p + n)

pub record IsBytes (buf : List ℕ) : Type 0 where
  pub at : (i : ℕ) → byte_at buf i < 256

pub IsBytes-nil : IsBytes []
IsBytes-nil = record { at = λ i. omega arith }

pub IsBytes-cons : (x : ℕ) (xs : List ℕ) → x < 256 → IsBytes xs → IsBytes (x ∷ xs)
IsBytes-cons x xs h b = record { at = go }
  where
    go : (i : ℕ) → byte_at (x ∷ xs) i < 256
    go zero = h
    go (suc i) = b.at i

-- The same as a test, for concrete buffers.
abbrev pub all_bytes : List ℕ → Bool
all_bytes [] = true
all_bytes (x ∷ xs) = ltb x 256 && all_bytes xs

pub all_bytes-IsBytes : (xs : List ℕ) → all_bytes xs ≡ true → IsBytes xs
all_bytes-IsBytes [] h = IsBytes-nil
all_bytes-IsBytes (x ∷ xs) h =
    IsBytes-cons x xs (ground arith) (all_bytes-IsBytes xs (ground arith))

module _ (buf : List ℕ) (p : ℕ) (bytes : IsBytes buf) where
  start : byte_at buf (p + 0) ≡ byte_at buf p
  start = ap (λ (t : ℕ). byte_at buf t) (omega arith)

  -- `pntoh16` reads inside the buffer, and its value is that of the 2 bytes.
  pub pntoh16-eq : p + 2 ≤ length buf → pntoh16 buf p ≡ ok (big_endian buf p 2)
  unfolding pntoh16
  pntoh16-eq fits =
      let a = byte_at buf p in
      let b = byte_at buf (p + 1) in
      let b8 : b < 256 = bytes.at (p + 1) in
      rw
        (
          read-in_range buf p (omega arith),
          read-in_range buf (p + 1) (omega arith),
          bit_or_add 8 (a) (a * 2 ^ 8) (b) (omega arith) (omega arith),
        )
        (ap ok (omega (arith, start)))

  -- `pntoh24` reads inside the buffer, and its value is that of the 3 bytes.
  pub pntoh24-eq : p + 3 ≤ length buf → pntoh24 buf p ≡ ok (big_endian buf p 3)
  unfolding pntoh24
  pntoh24-eq fits =
      let a = byte_at buf p in
      let b = byte_at buf (p + 1) in
      let b8 : b < 256 = bytes.at (p + 1) in
      let c = byte_at buf (p + 2) in
      let c8 : c < 256 = bytes.at (p + 2) in
      rw
        (
          read-in_range buf p (omega arith),
          read-in_range buf (p + 1) (omega arith),
          read-in_range buf (p + 2) (omega arith),
          bit_or_add 16 (a) (a * 2 ^ 16) (b * 2 ^ 8) (omega arith) (omega arith),
          bit_or_add 8 (a * 2 ^ 8 + b) (a * 2 ^ 16 + b * 2 ^ 8) (c) (omega arith) (omega arith),
        )
        (ap ok (omega (arith, start)))

  -- `pntoh32` reads inside the buffer, and its value is that of the 4 bytes.
  pub pntoh32-eq : p + 4 ≤ length buf → pntoh32 buf p ≡ ok (big_endian buf p 4)
  unfolding pntoh32
  pntoh32-eq fits =
      let a = byte_at buf p in
      let b = byte_at buf (p + 1) in
      let b8 : b < 256 = bytes.at (p + 1) in
      let c = byte_at buf (p + 2) in
      let c8 : c < 256 = bytes.at (p + 2) in
      let d = byte_at buf (p + 3) in
      let d8 : d < 256 = bytes.at (p + 3) in
      rw
        (
          read-in_range buf p (omega arith),
          read-in_range buf (p + 1) (omega arith),
          read-in_range buf (p + 2) (omega arith),
          read-in_range buf (p + 3) (omega arith),
          bit_or_add 24 (a) (a * 2 ^ 24) (b * 2 ^ 16) (omega arith) (omega arith),
          bit_or_add 16 (a * 2 ^ 8 + b) (a * 2 ^ 24 + b * 2 ^ 16) (c * 2 ^ 8) (omega arith)
              (omega arith),
          bit_or_add 8 (a * 2 ^ 16 + b * 2 ^ 8 + c) (a * 2 ^ 24 + b * 2 ^ 16 + c * 2 ^ 8) (d)
              (omega arith) (omega arith),
        )
        (ap ok (omega (arith, start)))

  -- `pntoh48` reads inside the buffer, and its value is that of the 6 bytes.
  pub pntoh48-eq : p + 6 ≤ length buf → pntoh48 buf p ≡ ok (big_endian buf p 6)
  unfolding pntoh48
  pntoh48-eq fits =
      let a = byte_at buf p in
      let b = byte_at buf (p + 1) in
      let b8 : b < 256 = bytes.at (p + 1) in
      let c = byte_at buf (p + 2) in
      let c8 : c < 256 = bytes.at (p + 2) in
      let d = byte_at buf (p + 3) in
      let d8 : d < 256 = bytes.at (p + 3) in
      let e = byte_at buf (p + 4) in
      let e8 : e < 256 = bytes.at (p + 4) in
      let f = byte_at buf (p + 5) in
      let f8 : f < 256 = bytes.at (p + 5) in
      rw
        (
          read-in_range buf p (omega arith),
          read-in_range buf (p + 1) (omega arith),
          read-in_range buf (p + 2) (omega arith),
          read-in_range buf (p + 3) (omega arith),
          read-in_range buf (p + 4) (omega arith),
          read-in_range buf (p + 5) (omega arith),
          bit_or_add 40 (a) (a * 2 ^ 40) (b * 2 ^ 32) (omega arith) (omega arith),
          bit_or_add 32 (a * 2 ^ 8 + b) (a * 2 ^ 40 + b * 2 ^ 32) (c * 2 ^ 24) (omega arith)
              (omega arith),
          bit_or_add 24 (a * 2 ^ 16 + b * 2 ^ 8 + c) (a * 2 ^ 40 + b * 2 ^ 32 + c * 2 ^ 24)
              (d * 2 ^ 16) (omega arith) (omega arith),
          bit_or_add 16 (a * 2 ^ 24 + b * 2 ^ 16 + c * 2 ^ 8 + d)
              (a * 2 ^ 40 + b * 2 ^ 32 + c * 2 ^ 24 + d * 2 ^ 16) (e * 2 ^ 8) (omega arith)
              (omega arith),
          bit_or_add 8 (a * 2 ^ 32 + b * 2 ^ 24 + c * 2 ^ 16 + d * 2 ^ 8 + e)
              (a * 2 ^ 40 + b * 2 ^ 32 + c * 2 ^ 24 + d * 2 ^ 16 + e * 2 ^ 8) (f) (omega arith)
              (omega arith),
        )
        (ap ok (omega (arith, start)))

  -- `pntoh64` reads inside the buffer, and its value is that of the 8 bytes.
  pub pntoh64-eq : p + 8 ≤ length buf → pntoh64 buf p ≡ ok (big_endian buf p 8)
  unfolding pntoh64
  pntoh64-eq fits =
      let a = byte_at buf p in
      let b = byte_at buf (p + 1) in
      let b8 : b < 256 = bytes.at (p + 1) in
      let c = byte_at buf (p + 2) in
      let c8 : c < 256 = bytes.at (p + 2) in
      let d = byte_at buf (p + 3) in
      let d8 : d < 256 = bytes.at (p + 3) in
      let e = byte_at buf (p + 4) in
      let e8 : e < 256 = bytes.at (p + 4) in
      let f = byte_at buf (p + 5) in
      let f8 : f < 256 = bytes.at (p + 5) in
      let g = byte_at buf (p + 6) in
      let g8 : g < 256 = bytes.at (p + 6) in
      let h = byte_at buf (p + 7) in
      let h8 : h < 256 = bytes.at (p + 7) in
      rw
        (
          read-in_range buf p (omega arith),
          read-in_range buf (p + 1) (omega arith),
          read-in_range buf (p + 2) (omega arith),
          read-in_range buf (p + 3) (omega arith),
          read-in_range buf (p + 4) (omega arith),
          read-in_range buf (p + 5) (omega arith),
          read-in_range buf (p + 6) (omega arith),
          read-in_range buf (p + 7) (omega arith),
          bit_or_add 56 (a) (a * 2 ^ 56) (b * 2 ^ 48) (omega arith) (omega arith),
          bit_or_add 48 (a * 2 ^ 8 + b) (a * 2 ^ 56 + b * 2 ^ 48) (c * 2 ^ 40) (omega arith)
              (omega arith),
          bit_or_add 40 (a * 2 ^ 16 + b * 2 ^ 8 + c) (a * 2 ^ 56 + b * 2 ^ 48 + c * 2 ^ 40)
              (d * 2 ^ 32) (omega arith) (omega arith),
          bit_or_add 32 (a * 2 ^ 24 + b * 2 ^ 16 + c * 2 ^ 8 + d)
              (a * 2 ^ 56 + b * 2 ^ 48 + c * 2 ^ 40 + d * 2 ^ 32) (e * 2 ^ 24) (omega arith)
              (omega arith),
          bit_or_add 24 (a * 2 ^ 32 + b * 2 ^ 24 + c * 2 ^ 16 + d * 2 ^ 8 + e)
              (a * 2 ^ 56 + b * 2 ^ 48 + c * 2 ^ 40 + d * 2 ^ 32 + e * 2 ^ 24) (f * 2 ^ 16)
              (omega arith) (omega arith),
          bit_or_add 16 (a * 2 ^ 40 + b * 2 ^ 32 + c * 2 ^ 24 + d * 2 ^ 16 + e * 2 ^ 8 + f)
              (a * 2 ^ 56 + b * 2 ^ 48 + c * 2 ^ 40 + d * 2 ^ 32 + e * 2 ^ 24 + f * 2 ^ 16)
              (g * 2 ^ 8) (omega arith) (omega arith),
          bit_or_add 8
              (a * 2 ^ 48 + b * 2 ^ 40 + c * 2 ^ 32 + d * 2 ^ 24 + e * 2 ^ 16 + f * 2 ^ 8 + g)
              (a * 2 ^ 56
                + b * 2 ^ 48
                + c * 2 ^ 40
                + d * 2 ^ 32
                + e * 2 ^ 24
                + f * 2 ^ 16
                + g * 2 ^ 8)
              (h) (omega arith) (omega arith),
        )
        (ap ok (omega (arith, start)))

-- A chain goes on with the value that is read.
pub Ensures-pntoh16 {κ ℓ} :
    {B : Type ℓ} {Q : B → Type κ} (buf : List ℕ) (p : ℕ) (f : ℕ → Out B)
    → IsBytes buf
    → p + 2 ≤ length buf
    → Ensures Q (f (big_endian buf p 2))
    → Ensures Q (pntoh16 buf p >>= f)
Ensures-pntoh16 buf p f b h k = rw (pntoh16-eq buf p b h) k

pub Ensures-pntoh24 {κ ℓ} :
    {B : Type ℓ} {Q : B → Type κ} (buf : List ℕ) (p : ℕ) (f : ℕ → Out B)
    → IsBytes buf
    → p + 3 ≤ length buf
    → Ensures Q (f (big_endian buf p 3))
    → Ensures Q (pntoh24 buf p >>= f)
Ensures-pntoh24 buf p f b h k = rw (pntoh24-eq buf p b h) k
