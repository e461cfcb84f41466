-- ===== src/Checksum/Sum/Tests.antt =====
-- The sum over a small buffer at an even and at an odd address.
use prizma.Base.{ℕ, ◌≡◌, refl, List, [], ◌∷◌, ok, arith}
use prizma.Checksum.{from64to16}
use prizma.Checksum.Sum.{
  bit, sum_bytes, do_csum, add_high, sum_shorts, reduced, add16, sum_longs, add32, sum_quads,
  add_low, fold_carry, sum_with, word64, swap_halves,
}
use prizma.Checksum.Sum.Words.{words_from, AllBytes}
use prizma.Checksum.Sum.Total.{IsSum, sum_bytes-words}

abbrev bytes : List ℕ
bytes = 1 ∷ 2 ∷ 3 ∷ 4 ∷ 5 ∷ 6 ∷ 7 ∷ 8 ∷ 9 ∷ 255 ∷ 255 ∷ 12 ∷ 13 ∷ []

same_sum : (do_csum 0 13 bytes ≡ ok 8230) × (do_csum 3 13 bytes ≡ ok 8230)
unfolding do_csum sum_bytes bit from64to16 add_high sum_shorts reduced add16 sum_longs add32
    sum_quads add_low fold_carry sum_with word64 swap_halves
same_sum = (refl, refl)

all_bytes : AllBytes bytes
all_bytes = (
  omega arith,
  (
    omega arith,
    (
      omega arith,
      (
        omega arith,
        (
          omega arith,
          (
            omega arith,
            (
              omega arith,
              (
                omega arith,
                (omega arith, (omega arith, (omega arith, (omega arith, (omega arith, tt))))),
              ),
            ),
          ),
        ),
      ),
    ),
  ),
)

sum_bytes-words_example :
    (r : ℕ) × (sum_bytes 3 13 bytes ≡ ok r) × IsSum (words_from (bit 1 3) bytes) r
sum_bytes-words_example = sum_bytes-words 3 12 bytes all_bytes refl
