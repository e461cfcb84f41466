-- ===== src/Checksum/Sum.antt =====
-- nfq2/checksum.c: `do_csum`, the sum over a buffer, on a machine that stores the low byte first. The
-- buffer is the list of the bytes that are left of it, with its address; a read past its end is a fault.
pub mod Words
pub mod Longs
pub mod Total
mod Tests
use prizma.Base.{
  ℕ, zero, suc, ◌+◌, ◌-◌, ◌*◌, ◌/◌, ◌%◌, ◌^◌, Bool, true, false, List, [], ◌∷◌, Out, ok, fault,
  ◌>>=◌, ◌==◌, ltb, not, if◌then◌else◌, wrap8, wrap16, wrap64,
}
use prizma.Checksum.{from64to16}

-- The sum so far, and the bytes that are left.
pub record Sum : Type 0 where
  pub result : ℕ
  pub buff : List ℕ

-- The byte in front, as the high half of a word, and as the low one.
pub add_high : Bool → ℕ → List ℕ → Out Sum
add_high false r s = ok (record { result = r; buff = s })
add_high true r [] = fault
add_high true r (a ∷ s) = ok (record { result = r + a * 2 ^ 8; buff = s })

pub add_low : Bool → ℕ → List ℕ → Out Sum
add_low false r s = ok (record { result = r; buff = s })
add_low true r [] = fault
add_low true r (a ∷ s) = ok (record { result = wrap64 (r + a); buff = s })

-- The bytes in front as a word, where the test holds.
pub add16 : Bool → ℕ → List ℕ → Out Sum
add16 true r (a ∷ b ∷ s) = ok (record { result = wrap64 (r + (a + b * 2 ^ 8)); buff = s })
add16 true r [] = fault
add16 true r (a ∷ []) = fault
add16 false r s = ok (record { result = r; buff = s })

pub add32 : Bool → ℕ → List ℕ → Out Sum
add32 true r (a ∷ b ∷ c ∷ d ∷ s) =
    ok (record { result = wrap64 (r + (a + b * 2 ^ 8 + c * 2 ^ 16 + d * 2 ^ 24)); buff = s })
add32 true r [] = fault
add32 true r (a ∷ []) = fault
add32 true r (a ∷ b ∷ []) = fault
add32 true r (a ∷ b ∷ c ∷ []) = fault
add32 false r s = ok (record { result = r; buff = s })

pub word64 : ℕ → ℕ → ℕ → ℕ → ℕ → ℕ → ℕ → ℕ → ℕ
word64 a b c d e f g h =
    a + b * 2 ^ 8 + c * 2 ^ 16 + d * 2 ^ 24 + e * 2 ^ 32 + f * 2 ^ 40 + g * 2 ^ 48 + h * 2 ^ 56

-- A turn of the loop: the carry of the last turn, then the next word.
pub sum_with : ℕ → ℕ → ℕ → ℕ
sum_with r carry w = wrap64 (wrap64 (r + carry) + w)

-- `(result & 0xffffffff) + (result >> 32)` after the last carry.
pub fold_carry : ℕ → ℕ → ℕ
fold_carry r carry = let x = wrap64 (r + carry) in x % 2 ^ 32 + x / 2 ^ 32

pub sum_quads : ℕ → ℕ → ℕ → List ℕ → Out Sum
sum_quads zero r carry s = ok (record { result = fold_carry r carry; buff = s })
sum_quads (suc count) r carry (a ∷ b ∷ c ∷ d ∷ e ∷ f ∷ g ∷ h ∷ s) =
    let w = word64 a b c d e f g h in
    let r' = sum_with r carry w in
    let carry' = if ltb r' w then 1 else 0 in sum_quads count r' carry' s
sum_quads (suc count) r carry s = fault

pub reduced : ℕ → Bool → ℕ → ℕ
reduced k true n = n - k
reduced k false n = n

pub bit : ℕ → ℕ → Bool
bit k n = n / k % 2 == 1

-- What is left where `count` of 32-bit words are: the words of 64 bits, when there are some, and `len & 4`.
pub sum_longs : ℕ → ℕ → ℕ → ℕ → List ℕ → Out Sum
sum_longs zero addr len r s = ok (record { result = r; buff = s })
sum_longs (suc count) addr len r s = do
  let single = bit 4 addr
  x ← add32 single r s
  let quads = reduced 1 single (suc count) / 2
  y ← (if quads == 0 then ok x else sum_quads quads x.result 0 x.buff)
  add32 (bit 4 (reduced 4 single len)) y.result y.buff

-- The same of 16-bit words.
pub sum_shorts : ℕ → ℕ → ℕ → ℕ → List ℕ → Out Sum
sum_shorts zero addr len r s = ok (record { result = r; buff = s })
sum_shorts (suc count) addr len r s = do
  let single = bit 2 addr
  let addr2 = if single then addr + 2 else addr
  let count2 = reduced 1 single (suc count) / 2
  let len2 = reduced 2 single len
  x ← add16 single r s
  y ← sum_longs count2 addr2 len2 x.result x.buff
  add16 (bit 2 len2) y.result y.buff

-- `result` before it is folded into 16 bits, where `len` is not zero.
pub sum_bytes : ℕ → ℕ → List ℕ → Out ℕ
sum_bytes addr len s = do
  let odd = bit 1 addr
  let addr1 = if odd then addr + 1 else addr
  let len1 = reduced 1 odd len
  x ← add_high odd 0 s
  y ← sum_shorts (len1 / 2) addr1 len1 x.result x.buff
  z ← add_low (bit 1 len1) y.result y.buff
  ok z.result

swap_halves : ℕ → ℕ
swap_halves u = u / 2 ^ 8 + u % 2 ^ 8 * 2 ^ 8

pub do_csum : ℕ → ℕ → List ℕ → Out ℕ
do_csum addr zero s = ok 0
do_csum addr (suc len) s = do
  result ← sum_bytes addr (suc len) s
  let u = from64to16 result
  ok (if bit 1 addr then swap_halves u else u)

pub ip4_compute_csum : ℕ → ℕ → List ℕ → Out ℕ
ip4_compute_csum addr len s = do u ← do_csum addr len s; ok (2 ^ 16 - 1 - u)
