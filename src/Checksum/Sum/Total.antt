-- ===== src/Checksum/Sum/Total.antt =====
-- `do_csum` reads just its buffer, and sums the words of it.
use prizma.Base.{
  ◌≡◌, ◌∙◌, ◌≤◌, ◌<◌, refl, ℕ, zero, suc, ◌+◌, ◌-◌, ◌*◌, ◌/◌, ◌%◌, ◌^◌, Bool, true, false, List, [],
  ◌∷◌, Out, ok, ◌>>=◌, if◌then◌else◌, wrap64, arith, length, Bool-cases, inl, inr,
}
use prizma.Checksum.Sum.{
  Sum, add_high, add_low, add16, reduced, bit, sum_longs, sum_shorts, sum_bytes,
}
use prizma.Checksum.Sum.Words.{words_from, AllBytes, Makes, Sums, Sums-bind, add16-Sums}
use prizma.Checksum.Sum.Longs.{Makes-as, Sums-as, bit_set, bit_clear, last_short, sum_longs-Sums}

short_count :
    (n count : ℕ) (b : Bool)
    → n / 2 ≡ suc count
    → (reduced 2 b n / 4 ≡ reduced 1 b (suc count) / 2)
      × (reduced 2 b n % 2 ≡ n % 2)
      × (b ≡ true → 2 ≤ n)
unfolding reduced
short_count n count false e = (omega (arith, e), refl, λ h. cc)
short_count n count true e = (omega (arith, e), omega (arith, e), λ h. omega (arith, e))

sum_shorts-Sums :
    (t n count addr r : ℕ) (s : List ℕ)
    → Makes t n (2 ^ 16) r s
    → n / 2 ≡ count
    → Sums t (n % 2) (2 ^ 50) (sum_shorts count addr n r s)
unfolding sum_shorts
sum_shorts-Sums t n zero addr r s m e = (
  record { result = r; buff = s },
  refl,
  Makes-as t n (2 ^ 16) (n % 2) (2 ^ 50) r s m (omega (arith, e)) (omega arith),
)
sum_shorts-Sums t n (suc count) addr r s m e =
    let b = bit 2 addr in
    let addr' = if b then addr + 2 else addr in
    let n' = reduced 2 b n in
    let (c, d, f) = short_count n count b e in
    let count' = reduced 1 b (suc count) / 2 in
    let (g, h) = last_short n' in
    Sums-bind (add16 b r s)
      (λ x. sum_longs count' addr' n' x.result x.buff >>= λ y. add16 (bit 2 n') y.result y.buff)
      (add16-Sums t n (2 ^ 16) r b s m f (omega arith))
      λ x p.
        Sums-bind (sum_longs count' addr' n' x.result x.buff)
          (λ y. add16 (bit 2 n') y.result y.buff)
          (sum_longs-Sums t n' (2 ^ 16 + 2 ^ 32) count' addr' x.result x.buff p c (omega arith))
          λ y p'.
            Sums-as t (reduced 2 (bit 2 n') (n' % 4)) (2 ^ 16 + 2 ^ 32 + 2 ^ 34 + 2 ^ 32) (n % 2)
              (2 ^ 50) (add16 (bit 2 n') y.result y.buff)
              (add16-Sums t (n' % 4) (2 ^ 16 + 2 ^ 32 + 2 ^ 34) y.result (bit 2 n') y.buff p' g
                (omega arith))
              (h ∙ d) (omega arith)

add_high-Sums :
    (n : ℕ) (odd : Bool) (s : List ℕ)
    → AllBytes s
    → length s ≡ suc n
    → Sums (words_from odd s) (reduced 1 odd (suc n)) (2 ^ 16) (add_high odd 0 s)
unfolding add_high reduced
add_high-Sums n false s a e = (
  record { result = 0; buff = s },
  refl,
  record { bytes = a; left = e; low = omega arith; same = omega arith },
)
add_high-Sums n true [] a e = absurd (omega (arith, e))
add_high-Sums n true (x ∷ s) a e = (
  record { result = 0 + x * 2 ^ 8; buff = s },
  refl,
  record { bytes = a.1; left = omega (arith, e); low = omega (arith, a.0); same = omega arith },
)

-- What is left in the end.
abbrev Ended : ℕ → Out Sum → Type 0
Ended t m =
    (x : Sum) × (m ≡ ok x) × (x.result < 2 ^ 64) × (x.result % (2 ^ 16 - 1) ≡ t % (2 ^ 16 - 1))

no_byte-Ended :
    (t n most r : ℕ) (s : List ℕ)
    → Makes t n most r s
    → most ≤ 2 ^ 50
    → length s ≡ 0
    → Ended t (add_low false r s)
unfolding add_low
no_byte-Ended t n most r [] m le e =
    (record { result = r; buff = [] }, refl, omega (arith, m.low), omega (arith, m.same))
no_byte-Ended t n most r (a ∷ s) m le e = absurd (omega (arith, e))

last_byte-Ended :
    (t n most r : ℕ) (s : List ℕ)
    → Makes t n most r s
    → most ≤ 2 ^ 50
    → length s ≡ 1
    → Ended t (add_low true r s)
unfolding add_low
last_byte-Ended t n most r [] m le e = absurd (omega (arith, e))
last_byte-Ended t n most r (a ∷ []) m le e =
    let small = m.bytes.0 in
    (
      record { result = wrap64 (r + a); buff = [] },
      refl,
      omega (arith, m.low, small),
      omega (arith, m.low, small, m.same),
    )
last_byte-Ended t n most r (a ∷ b ∷ s) m le e = absurd (omega (arith, e))

add_low-Ended :
    (t n r : ℕ) (s : List ℕ) → Makes t (n % 2) (2 ^ 50) r s → Ended t (add_low (bit 1 n) r s)
add_low-Ended t n r s m = elim (Bool-cases (bit 1 n)) [
  | inr e ↦ rw e (
      no_byte-Ended t (n % 2) (2 ^ 50) r s m (omega arith) (omega (arith, m.left, bit_clear 1 n e)))
  | inl e ↦ rw e (
      last_byte-Ended t (n % 2) (2 ^ 50) r s m (omega arith) (omega (arith, m.left, bit_set 1 n e)))
]

-- Below 2 ^ 64, and `total` modulo 2 ^ 16 - 1.
abbrev pub IsSum : ℕ → ℕ → Type 0
IsSum total r = (r < 2 ^ 64) × (r % (2 ^ 16 - 1) ≡ total % (2 ^ 16 - 1))

-- At any address, the sum over the bytes of a buffer reads just the buffer, does not wrap, and is modulo
-- 2 ^ 16 - 1 the sum of the words of the buffer: at an even address these begin at its first byte, and at an
-- odd one the first byte is the high half of a word of its own.
pub sum_bytes-words :
    (addr n : ℕ) (s : List ℕ)
    → AllBytes s
    → length s ≡ suc n
    → (r : ℕ) × (sum_bytes addr (suc n) s ≡ ok r) × IsSum (words_from (bit 1 addr) s) r
unfolding sum_bytes
sum_bytes-words addr n s a e =
    let odd = bit 1 addr in
    let t = words_from odd s in
    let addr1 = if odd then addr + 1 else addr in
    let len1 = reduced 1 odd (suc n) in
    let ends = λ (y : Sum). add_low (bit 1 len1) y.result y.buff >>= λ z. ok z.result in
    Sums-bind {Q = IsSum t} (add_high odd 0 s)
      (λ x. sum_shorts (len1 / 2) addr1 len1 x.result x.buff >>= ends) (add_high-Sums n odd s a e)
      λ x p.
        Sums-bind {Q = IsSum t} (sum_shorts (len1 / 2) addr1 len1 x.result x.buff) ends
          (sum_shorts-Sums t len1 (len1 / 2) addr1 x.result x.buff p refl)
          λ y q.
            let (z, f, low, same) = add_low-Ended t len1 y.result y.buff q in
            (z.result, rw f refl, (low, same))
