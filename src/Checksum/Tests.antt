-- ===== src/Checksum/Tests.antt =====
-- nfq2/checksum.c: `from64to16` on a sum of 33 bits.
use prizma.Base.{◌+◌, ◌%◌, ◌^◌, ◌-◌, ◌≤◌, ◌≡◌, refl, arith}
use prizma.Checksum.{from64to16}
use prizma.Checksum.Fold.{dropped, from64to16-congruent}

lost : (from64to16 0x1_ffff_ffff ≡ 0) × (0x1_ffff_ffff % 65535 ≡ 1)
unfolding from64to16
lost = (refl, refl)

from64to16-congruent_example :
    ((from64to16 0x1_ffff_ffff + dropped 0x1_ffff_ffff) % (2 ^ 16 - 1)
      ≡ 0x1_ffff_ffff % (2 ^ 16 - 1))
    × (dropped 0x1_ffff_ffff ≤ 1)
from64to16-congruent_example = from64to16-congruent 0x1_ffff_ffff (omega arith)
