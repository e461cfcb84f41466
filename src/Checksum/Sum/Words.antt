-- ===== src/Checksum/Sum/Words.antt =====
-- The sum of `do_csum` against that of the 16-bit words of the buffer.
use prizma.Base.{
  ◌≡◌, ◌≤◌, ◌<◌, refl, ℕ, zero, suc, ◌+◌, ◌-◌, ◌*◌, ◌%◌, ◌^◌, Bool, true, false, List, [], ◌∷◌, Out,
  ok, ◌>>=◌, ltb, if◌then◌else◌, wrap64, arith, length,
}
use prizma.Checksum.Sum.{Sum, add16, add32, word64, sum_with, fold_carry, sum_quads, reduced}

-- The sum of the words, the last byte alone as the low half of one.
abbrev pub words_of : List ℕ → ℕ
words_of [] = 0
words_of (a ∷ []) = a
words_of (a ∷ b ∷ s) = a + b * 2 ^ 8 + words_of s

-- The same where the first byte is the high half of a word.
abbrev pub words_from : Bool → List ℕ → ℕ
words_from false s = words_of s
words_from true [] = 0
words_from true (a ∷ s) = a * 2 ^ 8 + words_of s

abbrev pub AllBytes : List ℕ → Type 0
AllBytes [] = Unit
AllBytes (a ∷ s) = (a < 2 ^ 8) × AllBytes s

-- The sum so far and the words of what is left make `total`, modulo 2 ^ 16 - 1.
pub record Makes (total n most r : ℕ) (s : List ℕ) : Type 0 where
  pub bytes : AllBytes s
  pub left : length s ≡ n
  pub low : r ≤ most
  pub same : (r + words_of s) % (2 ^ 16 - 1) ≡ total % (2 ^ 16 - 1)

abbrev pub Sums : (total n most : ℕ) → Out Sum → Type 0
Sums total n most m = (x : Sum) × (m ≡ ok x) × Makes total n most x.result x.buff

pub Sums-bind :
    {B : Type 0} {Q : B → Type 0} {t n most : ℕ} (m : Out Sum) (f : Sum → Out B)
    → Sums t n most m
    → ((x : Sum) → Makes t n most x.result x.buff → (y : B) × (f x ≡ ok y) × Q y)
    → (y : B) × ((m >>= f) ≡ ok y) × Q y
Sums-bind m f (x, e, p) k = let (y, g, q) = k x p in (y, rw e g, q)

pub add16-Sums :
    (t n most r : ℕ) (test : Bool) (s : List ℕ)
    → Makes t n most r s
    → (test ≡ true → 2 ≤ n)
    → most ≤ 2 ^ 60
    → Sums t (reduced 2 test n) (most + 2 ^ 32) (add16 test r s)
unfolding add16 reduced
add16-Sums t n most r false s m h le = (
  record { result = r; buff = s },
  refl,
  record { bytes = m.bytes; left = m.left; low = omega (arith, m.low); same = m.same },
)
add16-Sums t n most r true [] m h le = absurd (omega (arith, m.left, h refl))
add16-Sums t n most r true (a ∷ []) m h le = absurd (omega (arith, m.left, h refl))
add16-Sums t n most r true (a ∷ b ∷ s) m h le =
    let (p, (q, rest)) = m.bytes in
    (
      record { result = wrap64 (r + (a + b * 2 ^ 8)); buff = s },
      refl,
      record {
        bytes = rest;
        left = omega (arith, m.left);
        low = omega (arith, m.low, p, q);
        same = omega (arith, m.low, p, q, m.same);
      },
    )

pub add32-Sums :
    (t n most r : ℕ) (test : Bool) (s : List ℕ)
    → Makes t n most r s
    → (test ≡ true → 4 ≤ n)
    → most ≤ 2 ^ 60
    → Sums t (reduced 4 test n) (most + 2 ^ 32) (add32 test r s)
unfolding add32 reduced
add32-Sums t n most r false s m h le = (
  record { result = r; buff = s },
  refl,
  record { bytes = m.bytes; left = m.left; low = omega (arith, m.low); same = m.same },
)
add32-Sums t n most r true [] m h le = absurd (omega (arith, m.left, h refl))
add32-Sums t n most r true (a ∷ []) m h le = absurd (omega (arith, m.left, h refl))
add32-Sums t n most r true (a ∷ b ∷ []) m h le = absurd (omega (arith, m.left, h refl))
add32-Sums t n most r true (a ∷ b ∷ c ∷ []) m h le = absurd (omega (arith, m.left, h refl))
add32-Sums t n most r true (a ∷ b ∷ c ∷ d ∷ s) m h le =
    let (p, (q, (u, (v, rest)))) = m.bytes in
    (
      record { result = wrap64 (r + (a + b * 2 ^ 8 + c * 2 ^ 16 + d * 2 ^ 24)); buff = s },
      refl,
      record {
        bytes = rest;
        left = omega (arith, m.left);
        low = omega (arith, m.low, p, q, u, v);
        same = omega (arith, m.low, p, q, u, v, m.same);
      },
    )

-- The sum of a word of 64 bits in words of 16.
abbrev halves : ℕ → ℕ → ℕ → ℕ → ℕ → ℕ → ℕ → ℕ → ℕ
halves a b c d e f g h = a + b * 2 ^ 8 + (c + d * 2 ^ 8 + (e + f * 2 ^ 8 + (g + h * 2 ^ 8)))

word64-halves :
    (a b c d e f g h : ℕ)
    → word64 a b c d e f g h
      ≡ halves a b c d e f g h
        + ((c + d * 2 ^ 8) + (e + f * 2 ^ 8) * 65537 + (g + h * 2 ^ 8) * 4295032833) * (2 ^ 16 - 1)
unfolding word64
word64-halves a b c d e f g h = omega arith

abbrev carry_of : ℕ → ℕ → ℕ
carry_of r w = if ltb r w then 1 else 0

-- With the carry, a turn adds the word modulo 2 ^ 64 - 1, and the next carry can be added.
sum_with-carry :
    (r carry w : ℕ)
    → r + carry < 2 ^ 64
    → w < 2 ^ 64
    → (sum_with r carry w + carry_of (sum_with r carry w) w < 2 ^ 64)
      × (sum_with r carry w
            + carry_of (sum_with r carry w) w
            + carry_of (sum_with r carry w) w * (2 ^ 64 - 1)
          ≡ r + carry + w)
unfolding sum_with
sum_with-carry r carry w h k = (ground arith, ground arith)

turn-same :
    (t r carry r' carry' w n k rest : ℕ)
    → r' + carry' + carry' * (2 ^ 64 - 1) ≡ r + carry + w
    → w ≡ n + k * (2 ^ 16 - 1)
    → (r + carry + (n + rest)) % (2 ^ 16 - 1) ≡ t % (2 ^ 16 - 1)
    → (r' + carry' + rest) % (2 ^ 16 - 1) ≡ t % (2 ^ 16 - 1)
turn-same t r carry r' carry' w n k rest e f g =
    let h : r' + carry' + rest + carry' * 281479271743489 * 65535
        ≡ r + carry + (n + rest) + k * 65535 =
      omega (arith, e, f) in
    omega (arith, g, h)

-- What the loop keeps: as `Makes`, with the carry that is not added yet.
pub record Turns (total n r carry : ℕ) (s : List ℕ) : Type 0 where
  pub bytes : AllBytes s
  pub left : length s ≡ n
  pub fits : r + carry < 2 ^ 64
  pub same : (r + carry + words_of s) % (2 ^ 16 - 1) ≡ total % (2 ^ 16 - 1)

fold_carry-same :
    (t r carry rest : ℕ)
    → r + carry < 2 ^ 64
    → (r + carry + rest) % (2 ^ 16 - 1) ≡ t % (2 ^ 16 - 1)
    → ((fold_carry r carry + rest) % (2 ^ 16 - 1) ≡ t % (2 ^ 16 - 1))
      × (fold_carry r carry ≤ 2 ^ 33)
unfolding fold_carry
fold_carry-same t r carry rest h e = (omega (arith, h, e), omega (arith, h))

word64-low :
    (a b c d e f g h : ℕ)
    → (a < 2 ^ 8) × (b < 2 ^ 8) × (c < 2 ^ 8) × (d < 2 ^ 8)
    → (e < 2 ^ 8) × (f < 2 ^ 8) × (g < 2 ^ 8) × (h < 2 ^ 8)
    → word64 a b c d e f g h < 2 ^ 64
unfolding word64
word64-low a b c d e f g h (p0, p1, p2, p3) (p4, p5, p6, p7) = omega arith

pub sum_quads-Sums :
    (t n count r carry : ℕ) (s : List ℕ)
    → Turns t n r carry s
    → 8 * count ≤ n
    → Sums t (n - 8 * count) (2 ^ 33) (sum_quads count r carry s)
unfolding sum_quads
sum_quads-Sums t n zero r carry s m le =
    let (e, low) = fold_carry-same t r carry (words_of s) m.fits m.same in
    (
      record { result = fold_carry r carry; buff = s },
      refl,
      record { bytes = m.bytes; left = omega (arith, m.left); low = low; same = e },
    )
sum_quads-Sums t n (suc count) r carry (a ∷ b ∷ c ∷ d ∷ e ∷ f ∷ g ∷ h ∷ s) m le =
    let (p0, (p1, (p2, (p3, (p4, (p5, (p6, (p7, rest)))))))) = m.bytes in
    let w = word64 a b c d e f g h in
    let (fits, sum) =
      sum_with-carry r carry w m.fits
        (word64-low a b c d e f g h (p0, p1, p2, p3) (p4, p5, p6, p7)) in
    let r' = sum_with r carry w in
    let carry' = carry_of r' w in
    let k = (c + d * 2 ^ 8) + (e + f * 2 ^ 8) * 65537 + (g + h * 2 ^ 8) * 4295032833 in
    let gathered : (r + carry + (halves a b c d e f g h + words_of s)) % (2 ^ 16 - 1)
        ≡ t % (2 ^ 16 - 1) =
      omega (arith, m.same) in
    let next : Turns t (n - 8) r' carry' s = record {
      bytes = rest;
      left = omega (arith, m.left);
      fits = fits;
      same =
          turn-same t r carry r' carry' w (halves a b c d e f g h) k (words_of s) sum
            (word64-halves a b c d e f g h) gathered;
    } in
    let (x, q, y) = sum_quads-Sums t (n - 8) count r' carry' s next (omega arith) in
    (x, q, record { bytes = y.bytes; left = omega (arith, y.left); low = y.low; same = y.same })
sum_quads-Sums t n (suc count) r carry [] m le = absurd (omega (arith, m.left))
sum_quads-Sums t n (suc count) r carry (a ∷ []) m le = absurd (omega (arith, m.left))
sum_quads-Sums t n (suc count) r carry (a ∷ b ∷ []) m le = absurd (omega (arith, m.left))
sum_quads-Sums t n (suc count) r carry (a ∷ b ∷ c ∷ []) m le = absurd (omega (arith, m.left))
sum_quads-Sums t n (suc count) r carry (a ∷ b ∷ c ∷ d ∷ []) m le = absurd (omega (arith, m.left))
sum_quads-Sums t n (suc count) r carry (a ∷ b ∷ c ∷ d ∷ e ∷ []) m le =
    absurd (omega (arith, m.left))
sum_quads-Sums t n (suc count) r carry (a ∷ b ∷ c ∷ d ∷ e ∷ f ∷ []) m le =
    absurd (omega (arith, m.left))
sum_quads-Sums t n (suc count) r carry (a ∷ b ∷ c ∷ d ∷ e ∷ f ∷ g ∷ []) m le =
    absurd (omega (arith, m.left))
