-- ===== src/Text/Tests.antt =====
-- Runs of the conversions.
use prizma.Base.{◌≡◌, refl, [], ◌∷◌}
use prizma.Text.{
  is_digit, is_space, skip_space, scan_digits, to_uint, scan_number, scan_sign, scan_uint, sscanf,
  unsigned, character, literal,
}

two_numbers :
    sscanf
      (unsigned ∷ literal b'-' ∷ unsigned ∷ character ∷ [])
      (b'8' ∷ b'0' ∷ b'-' ∷ b'4' ∷ b'4' ∷ b'3' ∷ [])
    ≡ 80 ∷ 443 ∷ []
unfolding sscanf scan_uint scan_sign scan_number scan_digits skip_space is_space is_digit to_uint
two_numbers = refl

-- A sign wraps.
minus_one : sscanf (unsigned ∷ []) (b' ' ∷ b'-' ∷ b'1' ∷ []) ≡ 4294967295 ∷ []
unfolding sscanf scan_uint scan_sign scan_number scan_digits skip_space is_space is_digit to_uint
minus_one = refl
