-- ===== src/Base/Bits.antt =====
-- `|` of disjoint fields, `&` with a mask, as arithmetic, at every width.
use Prim.Native.Nat.{min, max, digits, bit_and, bit_or, bit_and-bitwise, bit_or-bitwise}
use Prim.Native.Nat.{ℕ, zero, suc, ◌+◌, ◌-◌, ◌*◌, ◌/◌, ◌%◌, ◌^◌, ◌≤◌, ◌<◌}
use mathlib.Core.Path.{◌≡◌, refl, sym, ap, ◌∙◌}
use native.Mathlib.Nat.{
  pow-suc, one-le-pow, mod-lt, mod-eq_of_lt, div-add-mod', add-mul-mod_self_right,
  div-div-eq-div-mul,
}
use native.Mathlib.Omega.{arith}

-- Induction from half a number to the number.
halving_up_to :
    (P : ℕ → Type 0) → P 0 → ((a : ℕ) → P (suc a / 2) → P (suc a)) → (top a : ℕ) → a ≤ top → P a
halving_up_to P base half top zero le = base
halving_up_to P base half zero (suc a) le = absurd (omega arith)
halving_up_to P base half (suc top) (suc a) le =
    half a (halving_up_to P base half top (suc a / 2) (omega arith))

halving : (P : ℕ → Type 0) → P 0 → ((a : ℕ) → P (suc a / 2) → P (suc a)) → (a : ℕ) → P a
halving P base half a = halving_up_to P base half a a (omega arith)

-- `digits` has fuel, and fuel beyond its first number changes nothing.
abbrev grow : ℕ → ℕ → ℕ
grow zero m = m
grow (suc d) m = suc (grow d m)

grow-eq : (d m : ℕ) → grow d m ≡ d + m
grow-eq zero m = omega arith
grow-eq (suc d) m = omega (arith, grow-eq d m)

module _ (last : ℕ → ℕ) (digit : ℕ → ℕ → ℕ) where
  one_more :
      (fuel x y : ℕ) → x ≤ fuel → digits last digit (suc fuel) x y ≡ digits last digit fuel x y
  one_more zero zero y le = refl
  one_more zero (suc x) y le = absurd (omega arith)
  one_more (suc fuel) zero y le = refl
  one_more (suc fuel) (suc x) y le =
      ap (λ (t : ℕ). t * 2 + digit (suc x % 2) (y % 2))
        (one_more fuel (suc x / 2) (y / 2) (omega arith))

  many_more :
      (d fuel x y : ℕ) → x ≤ fuel → digits last digit (grow d fuel) x y ≡ digits last digit fuel x y
  many_more zero fuel x y le = refl
  many_more (suc d) fuel x y le =
      one_more (grow d fuel) x y (omega (arith, grow-eq d fuel)) ∙ many_more d fuel x y le

  -- The value of a positive number's digits, from those of its half.
  from_half :
      (x y : ℕ)
      → digits last digit (suc x) (suc x) y
        ≡ digits last digit (suc x / 2) (suc x / 2) (y / 2) * 2 + digit (suc x % 2) (y % 2)
  from_half x y =
      let h = suc x / 2 in
      ap (λ (t : ℕ). digits last digit t h (y / 2) * 2 + digit (suc x % 2) (y % 2))
        {y = grow (x - h) h} (omega (arith, grow-eq (x - h) h))
      ∙ ap (λ (t : ℕ). t * 2 + digit (suc x % 2) (y % 2))
          (many_more (x - h) h h (y / 2) (omega arith))

zero-bit_or : (b : ℕ) → bit_or 0 b ≡ b
zero-bit_or b = bit_or-bitwise 0 b

pub bit_or_step : (a b : ℕ) → bit_or a b ≡ bit_or (a / 2) (b / 2) * 2 + max (a % 2) (b % 2)
bit_or_step zero b = omega (arith, zero-bit_or b, zero-bit_or (b / 2))
bit_or_step (suc a) b =
    bit_or-bitwise (suc a) b
    ∙ from_half (λ y. y) max a b
    ∙ ap (λ (t : ℕ). t * 2 + max (suc a % 2) (b % 2)) (sym (bit_or-bitwise (suc a / 2) (b / 2)))

pub bit_and_step : (a b : ℕ) → bit_and a b ≡ bit_and (a / 2) (b / 2) * 2 + min (a % 2) (b % 2)
bit_and_step zero b = bit_and-bitwise 0 b ∙ omega (arith, bit_and-bitwise 0 (b / 2))
bit_and_step (suc a) b =
    bit_and-bitwise (suc a) b
    ∙ from_half (λ y. 0) min a b
    ∙ ap (λ (t : ℕ). t * 2 + min (suc a % 2) (b % 2)) (sym (bit_and-bitwise (suc a / 2) (b / 2)))

pub bit_or-zero : (a : ℕ) → bit_or a 0 ≡ a
bit_or-zero = halving (λ a. bit_or a 0 ≡ a) refl λ a ih. omega (arith, bit_or_step (suc a) 0, ih)

pub bit_and-zero : (a : ℕ) → bit_and a 0 ≡ 0
bit_and-zero = halving (λ a. bit_and a 0 ≡ 0) refl λ a ih. omega (arith, bit_and_step (suc a) 0, ih)

pub bit_or_comm : (a b : ℕ) → bit_or a b ≡ bit_or b a
bit_or_comm =
    halving (λ a. (b : ℕ) → bit_or a b ≡ bit_or b a) (λ b. zero-bit_or b ∙ sym (bit_or-zero b))
      λ a ih b. omega (arith, bit_or_step (suc a) b, bit_or_step b (suc a), ih (b / 2))

double_pow : (q k : ℕ) → q * 2 ^ suc k ≡ 2 * (q * 2 ^ k)
double_pow q k = omega (arith, ap (λ (t : ℕ). q * t) (pow-suc 2 k))

-- A mask of `k` low bits is the remainder by `2 ^ k`.
pub bit_and_mask : (k a : ℕ) → bit_and a (2 ^ k - 1) ≡ a % 2 ^ k
bit_and_mask zero a = omega (arith, bit_and-zero a)
bit_and_mask (suc k) a =
    let pos = one-le-pow k 2 (omega arith) in
    let q = a / 2 / 2 ^ k in
    let r = a / 2 % 2 ^ k * 2 + a % 2 in
    let whole : r + q * 2 ^ suc k ≡ a =
      omega (arith, double_pow q k, div-add-mod' (a / 2) (2 ^ k)) in
    let low : r < 2 ^ suc k = omega (arith, pow-suc 2 k, mod-lt (a / 2) pos) in
    let masked : bit_and a (2 ^ suc k - 1) ≡ r = omega (
      arith,
      pow-suc 2 k,
      bit_and_step a (2 ^ suc k - 1),
      ap (λ (t : ℕ). bit_and (a / 2) t) {x = (2 ^ suc k - 1) / 2} {y = 2 ^ k - 1}
          (omega (arith, pow-suc 2 k)),
      bit_and_mask k (a / 2),
    ) in
    masked
    ∙ sym (mod-eq_of_lt low)
    ∙ sym (add-mul-mod_self_right r q (2 ^ suc k))
    ∙ ap (λ (t : ℕ). t % 2 ^ suc k) whole

-- `(q << k) | r` is a sum when `r` fits `k` bits.
pub bit_or_fields : (k q r : ℕ) → r < 2 ^ k → bit_or (q * 2 ^ k) r ≡ q * 2 ^ k + r
bit_or_fields zero q r fits =
    ap (λ (t : ℕ). bit_or (q * 2 ^ 0) t) {x = r} {y = 0} (omega arith)
    ∙ bit_or-zero (q * 2 ^ 0)
    ∙ omega arith
bit_or_fields (suc k) q r fits = omega (
  arith,
  double_pow q k,
  pow-suc 2 k,
  bit_or_step (q * 2 ^ suc k) r,
  ap (λ (t : ℕ). bit_or t (r / 2)) {x = q * 2 ^ suc k / 2} {y = q * 2 ^ k}
      (omega (arith, double_pow q k)),
  bit_or_fields k q (r / 2) (omega (arith, pow-suc 2 k)),
)

-- The same where the high part is written otherwise.
pub bit_or_add : (k q x r : ℕ) → x ≡ q * 2 ^ k → r < 2 ^ k → bit_or x r ≡ x + r
bit_or_add k q x r e fits = rw e (bit_or_fields k q r fits)

div-two-pow-suc : (a k : ℕ) → a / 2 / 2 ^ k ≡ a / 2 ^ suc k
div-two-pow-suc a k =
    div-div-eq-div-mul a 2 (2 ^ k) ∙ ap (λ (t : ℕ). a / t) (omega (arith, pow-suc 2 k))

-- A mask moved up by `k` bits.
pub bit_and_shift : (k a m : ℕ) → bit_and a (m * 2 ^ k) ≡ bit_and (a / 2 ^ k) m * 2 ^ k
bit_and_shift zero a m =
    ap (λ (t : ℕ). bit_and a t) {y = m} (omega arith)
    ∙ ap (λ (t : ℕ). bit_and t m) {y = a / 2 ^ 0} (omega arith)
    ∙ omega arith
bit_and_shift (suc k) a m = omega (
  arith,
  ap (λ (t : ℕ). bit_and a t) (double_pow m k),
  bit_and_step a (2 * (m * 2 ^ k)),
  ap (λ (t : ℕ). bit_and (a / 2) t) {x = 2 * (m * 2 ^ k) / 2} {y = m * 2 ^ k} (omega arith),
  double_pow (bit_and (a / 2 ^ suc k) m) k,
  bit_and_shift k (a / 2) m,
  ap (λ (t : ℕ). bit_and t m * 2 ^ k) (div-two-pow-suc a k),
)

-- A mask of `n` bits above `k` lower ones.
pub bit_and_field : (k n a : ℕ) → bit_and a ((2 ^ n - 1) * 2 ^ k) ≡ a / 2 ^ k % 2 ^ n * 2 ^ k
bit_and_field k n a =
    bit_and_shift k a (2 ^ n - 1) ∙ ap (λ (t : ℕ). t * 2 ^ k) (bit_and_mask n (a / 2 ^ k))

-- `|` of a low part with a field above it.
pub bit_or_add_high : (k q x r : ℕ) → r ≡ q * 2 ^ k → x < 2 ^ k → bit_or x r ≡ x + r
bit_or_add_high k q x r e fits = omega (arith, bit_or_comm x r, bit_or_add k q r x e fits)
