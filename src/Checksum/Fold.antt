-- ===== src/Checksum/Fold.antt =====
-- Folding against the sum of ones' complement, which counts modulo 2 ^ 16 - 1.
use prizma.Base.{ℕ, ◌-◌, ◌+◌, ◌*◌, ◌/◌, ◌%◌, ◌^◌, ◌≤◌, ◌<◌, ◌≡◌, arith}
use prizma.Checksum.{from64to16}

-- The sum of the four 16-bit words.
abbrev pub words : ℕ → ℕ
words x = x % 2 ^ 16 + x / 2 ^ 16 % 2 ^ 16 + x / 2 ^ 32 % 2 ^ 16 + x / 2 ^ 48 % 2 ^ 16

-- What the last addition carries out of its 16 bits.
abbrev pub dropped : ℕ → ℕ
dropped x = (words x % 2 ^ 16 + words x / 2 ^ 16) / 2 ^ 16

split_words :
    (x : ℕ)
    → x < 2 ^ 64
    → x
      ≡ words x
        + (x / 2 ^ 16 % 2 ^ 16 + x / 2 ^ 32 % 2 ^ 16 * 65537 + x / 2 ^ 48 % 2 ^ 16 * 4295032833)
          * 65535
split_words x h = omega arith

from64to16-value : (x : ℕ) → from64to16 x + dropped x * 2 ^ 16 ≡ words x % 2 ^ 16 + words x / 2 ^ 16
unfolding from64to16
from64to16-value x = omega arith

-- For every 64-bit sum, the fold is congruent to it modulo 2 ^ 16 - 1 after what its last addition carries
-- out is added, which the code drops: that is 0 or 1, and it is 1 just where the low 16 bits of the sum
-- of the four words and the rest of that sum together need 17 bits.
pub from64to16-congruent :
    (x : ℕ)
    → x < 2 ^ 64
    → ((from64to16 x + dropped x) % (2 ^ 16 - 1) ≡ x % (2 ^ 16 - 1)) × (dropped x ≤ 1)
from64to16-congruent x h =
    let w = words x in
    let k = x / 2 ^ 16 % 2 ^ 16 + x / 2 ^ 32 % 2 ^ 16 * 65537 + x / 2 ^ 48 % 2 ^ 16 * 4295032833 in
    let s : x ≡ w + k * 65535 = split_words x h in
    let v : from64to16 x + dropped x * 2 ^ 16 ≡ w % 2 ^ 16 + w / 2 ^ 16 = from64to16-value x in
    let e : x ≡ from64to16 x + dropped x + (dropped x + w / 2 ^ 16 + k) * 65535 =
      omega (arith, s, v) in
    (omega (arith, e), omega arith)
