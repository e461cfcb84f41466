-- ===== src/Helpers.antt =====
-- nfq2/helpers.c: sequence numbers in a window, hexadecimal text and sorted arrays.
pub mod Laws
mod Tests
use prizma.Base.{
  ℕ, zero, suc, ◌+◌, ◌-◌, ◌*◌, ◌/◌, ◌%◌, ◌^◌, Bool, true, false, not, ◌&&◌, ◌||◌, List, [], ◌∷◌,
  Out, ok, no, ◌>>=◌, ltb, leb, ◌==◌, if◌then◌else◌,
}

pub seq_within : ℕ → ℕ → ℕ → Bool
seq_within s s1 s2 = leb s1 s2 && leb s1 s && leb s s2 || ltb s2 s1 && (leb s s2 || leb s1 s)

abbrev pub invalid_hex_digit : ℕ
invalid_hex_digit = 255

pub parse_hex_digit : ℕ → ℕ
parse_hex_digit c =
    if leb b'0' c && leb c b'9'
    then c - b'0'
    else if leb b'a' c && leb c b'f'
    then c - b'a' + 10
    else if leb b'A' c && leb c b'F'
    then c - b'A' + 10
    else invalid_hex_digit

-- A text of C is the list of its bytes, the zero at its end left out.
pub parse_hex_byte : ℕ → ℕ → Out ℕ
parse_hex_byte a b =
    let u = parse_hex_digit a in
    let l = parse_hex_digit b in
    if u == invalid_hex_digit || l == invalid_hex_digit then no else ok (u * 2 ^ 4 + l)

-- The bytes that are stored, at most `room`; a refusal where the text has no such byte.
pub parse_hex_str : List ℕ → ℕ → Out (List ℕ)
parse_hex_str s zero = ok []
parse_hex_str [] (suc room) = ok []
parse_hex_str (a ∷ []) (suc room) = no
parse_hex_str (a ∷ (b ∷ s)) (suc room) = do
  v ← parse_hex_byte a b
  rest ← parse_hex_str s room
  ok (v ∷ rest)

pub hex_digit : ℕ → ℕ
hex_digit v = if leb v 9 then b'0' + v else if leb v 15 then v + b'A' - 10 else b'?'

-- The rest of an array of UNIQ_SORT, where `u` is what was stored last.
pub unique_from : ℕ → List ℕ → List ℕ
unique_from u [] = []
unique_from u (x ∷ xs) = elim (x == u) [ true ↦ unique_from u xs | false ↦ x ∷ unique_from x xs ]

-- UNIQ_SORT: what is left of the array, of the number of elements that is returned.
pub unique : List ℕ → List ℕ
unique [] = []
unique (x ∷ xs) = x ∷ unique_from x xs
