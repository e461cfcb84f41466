-- ===== src/Helpers/Tests.antt =====
-- Runs of the helpers.
use prizma.Base.{ℕ, ◌≡◌, List, [], ◌∷◌, ok, leb, sub32, arith}
use prizma.Helpers.{seq_within, parse_hex_str, unique}
use prizma.Helpers.Laws.{
  seq_within-distance, hex_text, parse_hex_str-hex_text, has, Rising, unique-Rising,
}

-- A window over the end of the numbers.
seq_within-distance_example :
    seq_within 5 4294967290 10 ≡ leb (sub32 5 4294967290) (sub32 10 4294967290)
seq_within-distance_example =
    seq_within-distance 5 4294967290 10 (omega arith) (omega arith) (omega arith)

parse_hex_str-hex_text_example :
    parse_hex_str (hex_text (0xca ∷ 0x0f ∷ [])) 4 ≡ ok (0xca ∷ 0x0f ∷ [])
parse_hex_str-hex_text_example =
    parse_hex_str-hex_text (0xca ∷ 0x0f ∷ []) 4 (omega arith, (omega arith, tt)) (omega arith)

abbrev sorted : List ℕ
sorted = 1 ∷ 1 ∷ 2 ∷ 5 ∷ 5 ∷ []

unique-Rising_example : Rising (unique sorted) × ((y : ℕ) → has y (unique sorted) ≡ has y sorted)
unique-Rising_example =
    unique-Rising sorted
      (omega arith, (omega arith, (omega arith, (omega arith, (omega arith, tt)))))
