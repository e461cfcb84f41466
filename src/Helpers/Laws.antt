-- ===== src/Helpers/Laws.antt =====
-- nfq2/helpers.c: `seq_within`, `parse_hex_str` and UNIQ_SORT against what they are for.
use mathlib.Core.Path.{subst}
use prizma.Base.{
  ℕ, zero, suc, ◌/◌, ◌%◌, ◌^◌, ◌≤◌, ◌<◌, ◌≡◌, ◌∙◌, ap, refl, Bool, true, false, ◌||◌, List, [], ◌∷◌,
  ok, leb, ◌==◌, length, sub32, arith, Bool-cases, inl, inr,
}
use prizma.Helpers.{
  seq_within, invalid_hex_digit, parse_hex_digit, parse_hex_byte, parse_hex_str, hex_digit,
  unique_from, unique,
}

-- For 32-bit numbers: a sequence number is within a window just where its distance from the start of
-- the window, modulo 2 ^ 32, is at most that of the end.
pub seq_within-distance :
    (s s1 s2 : ℕ)
    → s < 2 ^ 32
    → s1 < 2 ^ 32
    → s2 < 2 ^ 32
    → seq_within s s1 s2 ≡ leb (sub32 s s1) (sub32 s2 s1)
unfolding seq_within
seq_within-distance s s1 s2 a b c = ground arith

parse_hex_digit-hex_digit : (v : ℕ) → v < 16 → parse_hex_digit (hex_digit v) ≡ v
unfolding parse_hex_digit hex_digit
parse_hex_digit-hex_digit v h = ground arith

-- The text of bytes, two digits for each.
abbrev pub hex_text : List ℕ → List ℕ
hex_text [] = []
hex_text (x ∷ xs) = hex_digit (x / 16) ∷ (hex_digit (x % 16) ∷ hex_text xs)

abbrev pub Octets : List ℕ → Type 0
Octets [] = Unit
Octets (x ∷ xs) = (x < 256) × Octets xs

parse_hex_byte-hex_digit :
    (x : ℕ) → x < 256 → parse_hex_byte (hex_digit (x / 16)) (hex_digit (x % 16)) ≡ ok x
unfolding parse_hex_byte
parse_hex_byte-hex_digit x h =
    let a = parse_hex_digit-hex_digit (x / 16) (omega arith) in
    let b = parse_hex_digit-hex_digit (x % 16) (omega arith) in
    let good : (x / 16 == invalid_hex_digit || x % 16 == invalid_hex_digit) ≡ false =
      ground arith in
    rw (a, b, good) (ap (λ (v : ℕ). ok v) (omega arith))

-- Bytes written as hexadecimal digits and parsed again are the same bytes, where the buffer has room for
-- them.
pub parse_hex_str-hex_text :
    (xs : List ℕ) (room : ℕ)
    → Octets xs
    → length xs ≤ room
    → parse_hex_str (hex_text xs) room ≡ ok xs
unfolding parse_hex_str
parse_hex_str-hex_text [] zero o h = refl
parse_hex_str-hex_text [] (suc room) o h = refl
parse_hex_str-hex_text (x ∷ xs) zero o h = absurd (omega arith)
parse_hex_str-hex_text (x ∷ xs) (suc room) o h =
    rw (parse_hex_byte-hex_digit x o.0, parse_hex_str-hex_text xs room o.1 (omega arith)) refl

-- Whether a list has a number.
abbrev pub has : ℕ → List ℕ → Bool
has y [] = false
has y (x ∷ xs) = y == x || has y xs

-- The numbers ascend from `lo` on, or do so strictly.
abbrev pub Ascending : ℕ → List ℕ → Type 0
Ascending lo [] = Unit
Ascending lo (x ∷ xs) = (lo ≤ x) × Ascending x xs

abbrev pub Rises : ℕ → List ℕ → Type 0
Rises lo [] = Unit
Rises lo (x ∷ xs) = (lo < x) × Rises x xs

abbrev pub Rising : List ℕ → Type 0
Rising [] = Unit
Rising (x ∷ xs) = Rises x xs

or_again : (a b : Bool) → (a || b) ≡ (a || (a || b))
or_again true b = refl
or_again false b = refl

Ascending-lower : (lo lo' : ℕ) (xs : List ℕ) → lo ≤ lo' → Ascending lo' xs → Ascending lo xs
Ascending-lower lo lo' [] h a = tt
Ascending-lower lo lo' (x ∷ xs) h a = (omega (arith, a.0), a.1)

unique_from-has : (y u : ℕ) (xs : List ℕ) → has y (u ∷ unique_from u xs) ≡ has y (u ∷ xs)
unfolding unique_from
unique_from-has y u [] = refl
unique_from-has y u (x ∷ xs) = elim (Bool-cases (x == u)) [
  | inl e ↦
      let same : (y == x) ≡ (y == u) = ground arith in
      rw (e, same) (unique_from-has y u xs ∙ or_again (y == u) (has y xs))
  | inr e ↦ rw e (ap (λ (b : Bool). y == u || b) (unique_from-has y x xs))
]

unique_from-same :
    (u x : ℕ) (xs : List ℕ) → (x == u) ≡ true → unique_from u xs ≡ unique_from u (x ∷ xs)
unfolding unique_from
unique_from-same u x xs e = rw (e, unique_from) refl

unique_from-new :
    (u x : ℕ) (xs : List ℕ) → (x == u) ≡ false → x ∷ unique_from x xs ≡ unique_from u (x ∷ xs)
unfolding unique_from
unique_from-new u x xs e = rw (e, unique_from) refl

unique_from-Rises : (u : ℕ) (xs : List ℕ) → Ascending u xs → Rises u (unique_from u xs)
unfolding unique_from
unique_from-Rises u [] a = tt
unique_from-Rises u (x ∷ xs) a = elim (Bool-cases (x == u)) [
  | inl e ↦
      subst (Rises u) (unique_from-same u x xs e)
        (unique_from-Rises u xs (Ascending-lower u x xs a.0 a.1))
  | inr e ↦
      let le = a.0 in
      subst (Rises u) (unique_from-new u x xs e) (ground arith, unique_from-Rises x xs a.1)
]

-- For an array that ascends, as the sort before it leaves it: what UNIQ_SORT leaves rises strictly and
-- has the same numbers.
pub unique-Rising :
    (xs : List ℕ) → Ascending 0 xs → Rising (unique xs) × ((y : ℕ) → has y (unique xs) ≡ has y xs)
unfolding unique
unique-Rising [] a = (tt, λ y. refl)
unique-Rising (x ∷ xs) a = (unique_from-Rises x xs a.1, λ y. unique_from-has y x xs)
