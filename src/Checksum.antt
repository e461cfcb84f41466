-- ===== src/Checksum.antt =====
-- nfq2/checksum.c: folding a sum into 16 bits, and the pseudo header of TCP and UDP, on a machine that
-- stores the low byte first.
pub mod Fold
pub mod Sum
mod Tests
use prizma.Base.{ℕ, ◌+◌, ◌-◌, ◌*◌, ◌/◌, ◌%◌, ◌^◌, wrap8, wrap16, wrap32, wrap64}

pub from64to16 : ℕ → ℕ
from64to16 x =
    let u = wrap32 (wrap16 x + wrap16 (x / 2 ^ 16) + wrap16 (x / 2 ^ 32) + wrap16 (x / 2 ^ 48)) in
    wrap16 (wrap16 u + wrap16 (u / 2 ^ 16))

-- The four bytes in the opposite order.
pub htonl : ℕ → ℕ
htonl v =
    wrap8 v * 2 ^ 24 + wrap8 (v / 2 ^ 8) * 2 ^ 16 + wrap8 (v / 2 ^ 16) * 2 ^ 8 + wrap8 (v / 2 ^ 24)

-- `~` on 16 bits is the distance from the highest number.
pub csum_tcpudp_magic : ℕ → ℕ → ℕ → ℕ → ℕ → ℕ
csum_tcpudp_magic saddr daddr len proto sum =
    2 ^ 16 - 1 - from64to16 (wrap64 (saddr + daddr + sum + htonl (wrap32 (len + proto))))
