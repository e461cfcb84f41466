-- ===== src/Text.antt =====
-- What the code of several files uses of the C library on texts: `sscanf` as glibc documents it with
-- 64-bit longs, and `strchr`. A text is the list of its bytes, the zero at its end left out.
pub mod Decimal
mod Tests
use prizma.Base.{
  arith, refl, ap₂, ◌≡◌, ℕ, ◌+◌, ◌-◌, ◌*◌, ◌^◌, Bool, true, false, ◌&&◌, ◌||◌, Option, none, some,
  List, [], ◌∷◌, leb, ◌==◌, if◌then◌else◌, sub64, wrap32,
}

unfoldable pub is_digit : ℕ → Bool
is_digit c = leb b'0' c && leb c b'9'

-- `isspace` in the C locale.
pub is_space : ℕ → Bool
is_space c = c == 32 || leb 9 c && leb c 13

pub skip_space : List ℕ → List ℕ
skip_space [] = []
skip_space (c ∷ s) = elim (is_space c) [ true ↦ skip_space s | false ↦ c ∷ s ]

-- What a conversion gives, and the text after it.
pub record Scan : Type 0 where
  pub value : ℕ
  pub rest : List ℕ

pub scan_digits : ℕ → List ℕ → Scan
scan_digits acc [] = record { value = acc; rest = [] }
scan_digits acc (c ∷ s) = elim (is_digit c) [
  | true ↦ scan_digits (acc * 10 + (c - b'0')) s
  | false ↦ record { value = acc; rest = c ∷ s }
]

-- `strtoul` stops at the greatest value; the conversion to `unsigned int` wraps.
pub to_uint : Bool → ℕ → ℕ
to_uint neg n = if leb (2 ^ 64) n then 2 ^ 32 - 1 else wrap32 (if neg then sub64 0 n else n)

pub scan_number : Bool → List ℕ → Option Scan
scan_number neg [] = none
scan_number neg (c ∷ s) =
    let r = scan_digits 0 (c ∷ s) in
    if is_digit c then some (record { value = to_uint neg r.value; rest = r.rest }) else none

scan_sign : List ℕ → Option Scan
scan_sign [] = none
scan_sign (c ∷ s) =
    if c == b'-'
    then scan_number true s
    else if c == b'+'
    then scan_number false s
    else scan_number false (c ∷ s)

-- `%u`
pub scan_uint : List ℕ → Option Scan
scan_uint s = scan_sign (skip_space s)

-- `%u`, `%c`, and a character of the format that stands for itself.
pub data Conversion : Type 0 where
  unsigned : Conversion
  character : Conversion
  literal : ℕ → Conversion

-- The values that are converted; `sscanf` returns how many there are.
unfoldable pub sscanf : List Conversion → List ℕ → List ℕ
sscanf [] s = []
sscanf (unsigned ∷ f) s = elim (scan_uint s) [ none ↦ [] | some r ↦ r.value ∷ sscanf f r.rest ]
sscanf (character ∷ f) [] = []
sscanf (character ∷ f) (c ∷ s) = c ∷ sscanf f s
sscanf (literal x ∷ f) [] = []
sscanf (literal x ∷ f) (c ∷ s) = let rest = sscanf f s in if c == x then rest else []

-- The text from the first `c` on.
unfoldable pub strchr : ℕ → List ℕ → Option (List ℕ)
strchr c [] = none
strchr c (x ∷ s) = elim (x == c) [ true ↦ some (x ∷ s) | false ↦ strchr c s ]

-- `!strcmp(a, b)`
unfoldable pub same_text : List ℕ → List ℕ → Bool
same_text [] [] = true
same_text [] (y ∷ t) = false
same_text (x ∷ s) [] = false
same_text (x ∷ s) (y ∷ t) = let rest = same_text s t in x == y && rest

pub same_text_refl : (s : List ℕ) → same_text s s ≡ true
unfolding same_text
same_text_refl [] = refl
same_text_refl (x ∷ s) =
    let same : (x == x) ≡ true = ground arith in rw (same, same_text_refl s) refl

pub same_text→eq : (s t : List ℕ) → same_text s t ≡ true → s ≡ t
unfolding same_text
same_text→eq [] [] h = refl
same_text→eq [] (y ∷ t) h = cc
same_text→eq (x ∷ s) [] h = cc
same_text→eq (x ∷ s) (y ∷ t) h =
    let first : x ≡ y = ground arith in
    let rest : same_text s t ≡ true = ground arith in ap₂ ◌∷◌ first (same_text→eq s t rest)
