-- ===== src/Base/Memory.antt =====
-- Copies into a buffer, and the wrapping arithmetic of C's unsigned integers.
use Prim.Native.Nat.{ℕ, ◌+◌, ◌-◌, ◌%◌, ◌^◌, ◌≤◌, ◌<◌}
use mathlib.Core.Path.{◌≡◌, sym, ap, ◌∙◌}
use mathlib.Core.List.{List, ◌++◌}
use native.Mathlib.Omega.{arith}
use prizma.Base.Tests.{leb, if◌then◌else◌}
use prizma.Base.Lists.{
  length, take, drop, length-append, length-take, length-drop, get_or-append_left,
  get_or-append_right, get_or-take, get_or-drop,
}
use prizma.Base.Outcome.{Out, ok, fault, byte_at}

abbrev pub wrap8 : ℕ → ℕ
wrap8 n = n % 2 ^ 8

abbrev pub wrap16 : ℕ → ℕ
wrap16 n = n % 2 ^ 16

abbrev pub wrap32 : ℕ → ℕ
wrap32 n = n % 2 ^ 32

abbrev pub wrap64 : ℕ → ℕ
wrap64 n = n % 2 ^ 64

-- `a - b` of two numbers below the modulus: it is added first, since `-` stops at 0.
abbrev pub sub32 : ℕ → ℕ → ℕ
sub32 a b = (a + 2 ^ 32 - b) % 2 ^ 32

abbrev pub sub64 : ℕ → ℕ → ℕ
sub64 a b = (a + 2 ^ 64 - b) % 2 ^ 64

-- `dst` with `src` written over it from offset `off` on.
unfoldable pub splice : List ℕ → ℕ → List ℕ → List ℕ
splice dst off src = take off dst ++ (src ++ drop (off + length src) dst)

-- `memcpy(dst + off, src, n)` for a source of `n` bytes.
unfoldable pub memcpy : List ℕ → ℕ → List ℕ → Out (List ℕ)
memcpy dst off src = if leb (off + length src) (length dst) then ok (splice dst off src) else fault

-- The bytes `[off, off + n)` of a buffer.
unfoldable pub slice : ℕ → ℕ → List ℕ → List ℕ
slice off n buf = take n (drop off buf)

pub length-slice : (off n : ℕ) (buf : List ℕ) → off + n ≤ length buf → length (slice off n buf) ≡ n
unfolding slice
length-slice off n buf h = omega (arith, length-take n (drop off buf), length-drop off buf)

pub byte_at-slice :
    (off n i : ℕ) (buf : List ℕ) → i < n → byte_at (slice off n buf) i ≡ byte_at buf (off + i)
unfolding slice
byte_at-slice off n i buf h = get_or-take n (drop off buf) i 0 h ∙ get_or-drop off buf i 0

module _ (dst : List ℕ) (off : ℕ) (src : List ℕ) (fits : off + length src ≤ length dst) where
  pub memcpy-in_range : memcpy dst off src ≡ ok (splice dst off src)
  unfolding memcpy
  memcpy-in_range = ground arith

  pub length-splice : length (splice dst off src) ≡ length dst
  unfolding splice
  length-splice = omega (
    arith,
    length-append (take off dst) (src ++ drop (off + length src) dst),
    length-append src (drop (off + length src) dst),
    length-take off dst,
    length-drop (off + length src) dst,
  )

  taken : length (take off dst) ≡ off
  taken = omega (arith, length-take off dst)

  pub byte_at-splice_below : (i : ℕ) → i < off → byte_at (splice dst off src) i ≡ byte_at dst i
  unfolding splice
  byte_at-splice_below i h =
      get_or-append_left (take off dst) (src ++ drop (off + length src) dst) i 0
        (omega (arith, taken))
      ∙ get_or-take off dst i 0 h

  splice_from :
      (i : ℕ)
      → byte_at (splice dst off src) (off + i) ≡ byte_at (src ++ drop (off + length src) dst) i
  unfolding splice
  splice_from i =
      ap (λ (k : ℕ). byte_at (splice dst off src) (k + i)) (sym taken)
      ∙ get_or-append_right (take off dst) (src ++ drop (off + length src) dst) i 0

  pub byte_at-splice_inside :
      (i : ℕ) → i < length src → byte_at (splice dst off src) (off + i) ≡ byte_at src i
  byte_at-splice_inside i h =
      splice_from i ∙ get_or-append_left src (drop (off + length src) dst) i 0 h

  pub byte_at-splice_above :
      (i : ℕ) → off + length src ≤ i → byte_at (splice dst off src) i ≡ byte_at dst i
  byte_at-splice_above i h =
      let k = i - (off + length src) in
      ap (λ (j : ℕ). byte_at (splice dst off src) j) {x = i} {y = off + (length src + k)}
        (omega arith)
      ∙ splice_from (length src + k)
      ∙ get_or-append_right src (drop (off + length src) dst) k 0
      ∙ get_or-drop (off + length src) dst k 0
      ∙ ap (λ (j : ℕ). byte_at dst j) {x = off + length src + k} {y = i} (omega arith)
