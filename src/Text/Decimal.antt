-- ===== src/Text/Decimal.antt =====
-- Decimal digits, and what the conversion `%u` and `strchr` make of them.
use mathlib.Core.Path.{subst}
use prizma.Base.{
  ℕ, zero, suc, ◌+◌, ◌*◌, ◌/◌, ◌%◌, ◌^◌, ◌<◌, ◌≡◌, ◌∙◌, ap, refl, sym, Bool, true, false, some,
  List, [], ◌∷◌, ◌⊎◌, ltb, ltb→lt, Bool-cases, inl, inr, ◌==◌, if◌then◌else◌, arith,
}
use prizma.Text.{
  is_digit, is_space, skip_space, Scan, scan_digits, to_uint, scan_number, scan_sign, scan_uint,
  strchr,
}

-- The digits of a number, before a text.
abbrev pub decimal_onto : ℕ → ℕ → List ℕ → List ℕ
decimal_onto zero n s = (b'0' + n % 10) ∷ s
decimal_onto (suc k) n s =
    let rest = decimal_onto k (n / 10) ((b'0' + n % 10) ∷ s) in
    if ltb n 10 then (b'0' + n % 10) ∷ s else rest

-- A number below 2 ^ 32 has ten digits at most.
abbrev pub decimal : ℕ → List ℕ → List ℕ
decimal n s = decimal_onto 9 n s

-- The text after a number does not begin with a digit.
abbrev pub Stops : List ℕ → Type 0
Stops [] = Unit
Stops (c ∷ s) = is_digit c ≡ false

is_digit-digit : (d : ℕ) → d < 10 → is_digit (b'0' + d) ≡ true
unfolding is_digit
is_digit-digit d h = ground arith

scan_digits-stop :
    (acc : ℕ) (s : List ℕ) → Stops s → scan_digits acc s ≡ record { value = acc; rest = s }
unfolding scan_digits
scan_digits-stop acc [] h = refl
scan_digits-stop acc (c ∷ s) h = rw (h, scan_digits) refl

scan_digits-digit :
    (acc d : ℕ) (s : List ℕ)
    → d < 10
    → scan_digits acc ((b'0' + d) ∷ s) ≡ scan_digits (acc * 10 + d) s
unfolding scan_digits
scan_digits-digit acc d s h =
    rw (is_digit-digit d h, scan_digits)
      (ap (λ (k : ℕ). scan_digits (acc * 10 + k) s) (omega arith))

digit_not_space : (c : ℕ) → is_digit c ≡ true → is_space c ≡ false
unfolding is_digit is_space
digit_not_space c h = ground arith

to_uint-small : (n : ℕ) → n < 2 ^ 32 → to_uint false n ≡ n
unfolding to_uint
to_uint-small n h = ground arith

not_sign : (c : ℕ) → is_digit c ≡ true → (x : ℕ) → (x ≡ b'-') ⊎ (x ≡ b'+') → (c == x) ≡ false
unfolding is_digit
not_sign c h x w = ground arith

scan_sign-Digit :
    (c : ℕ) (s : List ℕ)
    → is_digit c ≡ true
    → scan_sign (c ∷ s)
      ≡ some (record {
        value = to_uint false (scan_digits 0 (c ∷ s)).value;
        rest = (scan_digits 0 (c ∷ s)).rest;
      })
unfolding scan_sign scan_number
scan_sign-Digit c s h =
    let minus : (c == b'-') ≡ false = not_sign c h b'-' (inl refl) in
    let plus : (c == b'+') ≡ false = not_sign c h b'+' (inr refl) in
    rw (minus, plus, h, scan_number) refl

strchr-digit :
    (c d : ℕ) (s : List ℕ) → d < 10 → is_digit c ≡ false → strchr c ((b'0' + d) ∷ s) ≡ strchr c s
unfolding strchr is_digit
strchr-digit c d s h k = let e : (b'0' + d == c) ≡ false = ground arith in rw (e, strchr) refl

-- The power of ten with `k` zeros.
abbrev pow10 : ℕ → ℕ
pow10 zero = 1
pow10 (suc k) = 10 * pow10 k

scan_digits-decimal_onto :
    (k n : ℕ) (s : List ℕ)
    → n < pow10 (suc k)
    → scan_digits 0 (decimal_onto k n s) ≡ scan_digits n s
scan_digits-decimal_onto zero n s h =
    scan_digits-digit 0 (n % 10) s (omega arith)
    ∙ ap (λ (v : ℕ). scan_digits v s) {y = n} (omega arith)
scan_digits-decimal_onto (suc k) n s h = elim (Bool-cases (ltb n 10)) [
  | inl e ↦
      let lt : n < 10 = ltb→lt n 10 e in
      rw e (
        scan_digits-digit 0 (n % 10) s (omega arith)
        ∙ ap (λ (v : ℕ). scan_digits v s) {y = n} (omega arith))
  | inr e ↦ rw e (
      scan_digits-decimal_onto k (n / 10) ((b'0' + n % 10) ∷ s) (omega arith)
      ∙ scan_digits-digit (n / 10) (n % 10) s (omega arith)
      ∙ ap (λ (v : ℕ). scan_digits v s) {y = n} (omega arith))
]

-- A text begins with a digit.
abbrev pub Digit : List ℕ → Type 0
Digit [] = ⊥
Digit (c ∷ s) = is_digit c ≡ true

decimal_onto-Digit : (k n : ℕ) (s : List ℕ) → Digit (decimal_onto k n s)
decimal_onto-Digit zero n s = is_digit-digit (n % 10) (omega arith)
decimal_onto-Digit (suc k) n s =
    let later = decimal_onto k (n / 10) ((b'0' + n % 10) ∷ s) in
    elim (Bool-cases (ltb n 10)) [
      | inl e ↦
          subst (λ (b : Bool). Digit (if b then (b'0' + n % 10) ∷ s else later)) (sym e)
            (is_digit-digit (n % 10) (omega arith))
      | inr e ↦
          subst (λ (b : Bool). Digit (if b then (b'0' + n % 10) ∷ s else later)) (sym e)
            (decimal_onto-Digit k (n / 10) ((b'0' + n % 10) ∷ s))
    ]

scan_uint-Digit :
    (t : List ℕ)
    → Digit t
    → scan_uint t
      ≡ some
          (record { value = to_uint false (scan_digits 0 t).value; rest = (scan_digits 0 t).rest })
unfolding scan_uint skip_space
scan_uint-Digit [] h = absurd h
scan_uint-Digit (c ∷ s) h = rw (digit_not_space c h, skip_space) (scan_sign-Digit c s h)

-- `%u` reads a number back, with the text after it.
pub scan_uint-decimal :
    (n : ℕ) (s : List ℕ)
    → n < 2 ^ 32
    → Stops s
    → scan_uint (decimal n s) ≡ some (record { value = n; rest = s })
scan_uint-decimal n s h stop =
    let e : scan_digits 0 (decimal n s) ≡ record { value = n; rest = s } =
      scan_digits-decimal_onto 9 n s (omega arith) ∙ scan_digits-stop n s stop in
    scan_uint-Digit (decimal n s) (decimal_onto-Digit 9 n s)
    ∙ ap (λ (r : Scan). some (record { value = to_uint false r.value; rest = r.rest })) e
    ∙ ap (λ (v : ℕ). some (record { value = v; rest = s })) (to_uint-small n h)

-- `strchr` runs over the digits of a number.
strchr-decimal_onto :
    (c k n : ℕ) (s : List ℕ) → is_digit c ≡ false → strchr c (decimal_onto k n s) ≡ strchr c s
strchr-decimal_onto c zero n s h = strchr-digit c (n % 10) s (omega arith) h
strchr-decimal_onto c (suc k) n s h = elim (Bool-cases (ltb n 10)) [
  | inl e ↦ rw e (strchr-digit c (n % 10) s (omega arith) h)
  | inr e ↦ rw e (
      strchr-decimal_onto c k (n / 10) ((b'0' + n % 10) ∷ s) h
      ∙ strchr-digit c (n % 10) s (omega arith) h)
]

pub strchr-decimal :
    (c n : ℕ) (s : List ℕ) → is_digit c ≡ false → strchr c (decimal n s) ≡ strchr c s
strchr-decimal c n s h = strchr-decimal_onto c 9 n s h
