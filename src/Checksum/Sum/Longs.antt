-- ===== src/Checksum/Sum/Longs.antt =====
-- The words of 32 and 64 bits of `do_csum`.
use prizma.Base.{
  ◌≡◌, ◌∙◌, ◌≤◌, ◌<◌, refl, ℕ, zero, suc, ◌+◌, ◌-◌, ◌*◌, ◌/◌, ◌%◌, ◌^◌, Bool, true, false, List,
  Out, ok, ◌>>=◌, ◌==◌, if◌then◌else◌, arith, Bool-cases, inl, inr,
}
use prizma.Checksum.Sum.{Sum, add32, sum_quads, reduced, bit, sum_longs}
use prizma.Checksum.Sum.Words.{Makes, Sums, Sums-bind, add32-Sums, sum_quads-Sums, Turns}

pub Makes-as :
    (t n most n' most' r : ℕ) (s : List ℕ)
    → Makes t n most r s
    → n ≡ n'
    → most ≤ most'
    → Makes t n' most' r s
Makes-as t n most n' most' r s m e le = record {
  bytes = m.bytes;
  left = omega (arith, m.left);
  low = omega (arith, m.low);
  same = m.same;
}

pub Sums-as :
    (t n most n' most' : ℕ) (o : Out Sum)
    → Sums t n most o
    → n ≡ n'
    → most ≤ most'
    → Sums t n' most' o
Sums-as t n most n' most' o (x, e, m) f le =
    (x, e, Makes-as t n most n' most' x.result x.buff m f le)

quads-Sums :
    (t n most q : ℕ) (x : Sum)
    → Makes t n most x.result x.buff
    → 8 * q ≤ n
    → 2 ^ 33 ≤ most
    → most ≤ 2 ^ 60
    → Sums t (n - 8 * q) most (if q == 0 then ok x else sum_quads q x.result 0 x.buff)
quads-Sums t n most q x m le low high = elim (Bool-cases (q == 0)) [
  | inl e ↦
      let none_left : q ≡ 0 = ground arith in
      rw e
        (x, refl, Makes-as t n most (n - 8 * q) most x.result x.buff m (omega arith) (omega arith))
  | inr e ↦
      let turns : Turns t n x.result 0 x.buff = record {
        bytes = m.bytes;
        left = m.left;
        fits = omega (arith, m.low);
        same = omega (arith, m.same);
      } in
      rw e (
        Sums-as t (n - 8 * q) (2 ^ 33) (n - 8 * q) most (sum_quads q x.result 0 x.buff)
          (sum_quads-Sums t n q x.result 0 x.buff turns le) refl low)
]

reduced_count :
    (n count : ℕ) (b : Bool)
    → n / 4 ≡ suc count
    → (reduced 1 b (suc count) ≡ reduced 4 b n / 4)
      × (reduced 4 b n % 4 ≡ n % 4)
      × (b ≡ true → 4 ≤ n)
unfolding reduced
reduced_count n count false e = (omega (arith, e), refl, λ h. cc)
reduced_count n count true e = (omega (arith, e), omega (arith, e), λ h. omega (arith, e))

pub bit_set : (k n : ℕ) → bit k n ≡ true → n / k % 2 ≡ 1
unfolding bit
bit_set k n e = ground arith

pub bit_clear : (k n : ℕ) → bit k n ≡ false → n / k % 2 ≡ 0
unfolding bit
bit_clear k n e =
    let differs : (n / k % 2 == 1) ≡ false = e in
    let low : n / k % 2 < 2 = omega arith in ground arith

reduced_set : (k n : ℕ) (b : Bool) → b ≡ true → reduced k b n ≡ n - k
unfolding reduced
reduced_set k n true e = refl
reduced_set k n false e = cc

reduced_clear : (k n : ℕ) (b : Bool) → b ≡ false → reduced k b n ≡ n
unfolding reduced
reduced_clear k n true e = cc
reduced_clear k n false e = refl

-- What `len & 4` tells, after the loop.
last_long :
    (n : ℕ)
    → (bit 4 n ≡ true → 4 ≤ n - 8 * (n / 4 / 2))
      × (reduced 4 (bit 4 n) (n - 8 * (n / 4 / 2)) ≡ n % 4)
last_long n = (
  λ e. omega (arith, bit_set 4 n e),
  elim (Bool-cases (bit 4 n)) [
    | inl e ↦ reduced_set 4 (n - 8 * (n / 4 / 2)) (bit 4 n) e ∙ omega (arith, bit_set 4 n e)
    | inr e ↦ reduced_clear 4 (n - 8 * (n / 4 / 2)) (bit 4 n) e ∙ omega (arith, bit_clear 4 n e)
  ],
)

pub last_short : (n : ℕ) → (bit 2 n ≡ true → 2 ≤ n % 4) × (reduced 2 (bit 2 n) (n % 4) ≡ n % 2)
last_short n = (
  λ e. omega (arith, bit_set 2 n e),
  elim (Bool-cases (bit 2 n)) [
    | inl e ↦ reduced_set 2 (n % 4) (bit 2 n) e ∙ omega (arith, bit_set 2 n e)
    | inr e ↦ reduced_clear 2 (n % 4) (bit 2 n) e ∙ omega (arith, bit_clear 2 n e)
  ],
)

pub sum_longs-Sums :
    (t n most count addr r : ℕ) (s : List ℕ)
    → Makes t n most r s
    → n / 4 ≡ count
    → most ≤ 2 ^ 40
    → Sums t (n % 4) (most + 2 ^ 34) (sum_longs count addr n r s)
unfolding sum_longs
sum_longs-Sums t n most zero addr r s m e le = (
  record { result = r; buff = s },
  refl,
  Makes-as t n most (n % 4) (most + 2 ^ 34) r s m (omega (arith, e)) (omega arith),
)
sum_longs-Sums t n most (suc count) addr r s m e le =
    let b = bit 4 addr in
    let n' = reduced 4 b n in
    let (c, d, f) = reduced_count n count b e in
    let q = reduced 1 b (suc count) / 2 in
    let (g, h) = last_long n' in
    let same : 8 * q ≡ 8 * (n' / 4 / 2) = omega (arith, c) in
    Sums-bind (add32 b r s)
      (λ x. (if q == 0 then ok x else sum_quads q x.result 0 x.buff) >>= λ y.
        add32 (bit 4 n') y.result y.buff)
      (add32-Sums t n most r b s m f (omega arith))
      λ x p.
        Sums-bind (if q == 0 then ok x else sum_quads q x.result 0 x.buff)
          (λ y. add32 (bit 4 n') y.result y.buff)
          (quads-Sums t n' (most + 2 ^ 33) q x
            (Makes-as t n' (most + 2 ^ 32) n' (most + 2 ^ 33) x.result x.buff p refl (omega arith))
            (omega (arith, same)) (omega arith) (omega arith))
          λ y p'.
            Sums-as t (reduced 4 (bit 4 n') (n' - 8 * (n' / 4 / 2))) (most + 2 ^ 33 + 2 ^ 32)
              (n % 4) (most + 2 ^ 34) (add32 (bit 4 n') y.result y.buff)
              (add32-Sums t (n' - 8 * (n' / 4 / 2)) (most + 2 ^ 33) y.result (bit 4 n') y.buff
                (Makes-as t (n' - 8 * q) (most + 2 ^ 33) (n' - 8 * (n' / 4 / 2)) (most + 2 ^ 33)
                  y.result y.buff p' (omega (arith, same)) (omega arith))
                g (omega arith))
              (h ∙ d) (omega arith)
