-- ===== src/Http.antt =====
-- nfq2/protocol.c: recognising an HTTP request and finding its Host header. A test says false by `no`
-- as well as by `ok false`.
pub mod Bounds
mod Tests
use prizma.Base.{
  ℕ, zero, suc, ◌+◌, ◌-◌, ◌*◌, Bool, true, false, not, ◌&&◌, ◌||◌, List, [], ◌∷◌, Out, ok, no,
  fault, ◌>>=◌, ltb, leb, ◌==◌, if◌then◌else◌, read, length, byte_at,
}
use prizma.Classify.{mem_eq}

-- `http_methods`
abbrev pub http_methods : List (List ℕ)
http_methods =
    (b'G' ∷ b'E' ∷ b'T' ∷ b' ' ∷ [])
    ∷ (b'P' ∷ b'O' ∷ b'S' ∷ b'T' ∷ b' ' ∷ [])
    ∷ (b'H' ∷ b'E' ∷ b'A' ∷ b'D' ∷ b' ' ∷ [])
    ∷ (b'O' ∷ b'P' ∷ b'T' ∷ b'I' ∷ b'O' ∷ b'N' ∷ b'S' ∷ b' ' ∷ [])
    ∷ (b'P' ∷ b'U' ∷ b'T' ∷ b' ' ∷ [])
    ∷ (b'D' ∷ b'E' ∷ b'L' ∷ b'E' ∷ b'T' ∷ b'E' ∷ b' ' ∷ [])
    ∷ (b'C' ∷ b'O' ∷ b'N' ∷ b'N' ∷ b'E' ∷ b'C' ∷ b'T' ∷ b' ' ∷ [])
    ∷ (b'T' ∷ b'R' ∷ b'A' ∷ b'C' ∷ b'E' ∷ b' ' ∷ [])
    ∷ (b'P' ∷ b'A' ∷ b'T' ∷ b'C' ∷ b'H' ∷ b' ' ∷ [])
    ∷ []

-- The loop over the methods.
pub find_method : List ℕ → ℕ → ℕ → List (List ℕ) → Out (List ℕ)
find_method buf d len [] = no
find_method buf d len (x ∷ xs) =
    let rest = find_method buf d len xs in
    if leb (length x) len then (do same ← mem_eq buf d x; if same then ok x else rest) else rest

pub http_method : List ℕ → ℕ → ℕ → Out (List ℕ)
http_method buf d len = if leb 4 len then find_method buf d len http_methods else no

abbrev pub is_blank : ℕ → Bool
is_blank c = c == b' ' || c == 9

-- Neither a blank nor the end of a line.
abbrev pub is_word : ℕ → Bool
is_word c = not (c == b' ') && not (c == 9) && not (c == 13) && not (c == 10)

-- `for(; len && …; data++, len--)`: how many of the bytes are left where the test fails.
pub skip_while : (ℕ → Bool) → List ℕ → ℕ → ℕ → Out ℕ
skip_while test buf e zero = ok 0
skip_while test buf e (suc n) = do
  c ← read buf (e - suc n)
  let rest = skip_while test buf e n
  if test c then rest else ok (suc n)

-- A word and the blanks behind it: what is left, refused where the message or the line ends first.
pub skip_word : List ℕ → ℕ → ℕ → Out ℕ
skip_word buf e n = do
  m ← skip_while is_word buf e n
  if m == 0
      then no
      else do c ← read buf (e - m); if is_blank c then skip_while is_blank buf e m else no

-- `e` is the end of the message.
pub is_http : List ℕ → ℕ → ℕ → Out Bool
is_http buf d len = do
  let e = d + len
  method ← http_method buf d len
  m ← skip_word buf e len
  n ← skip_word buf e m
  if ltb n 10 then ok false else do
    c ← read buf (e - n)
    if c == 13 || c == 10
        then ok false
        else mem_eq buf (e - n) (b'H' ∷ b'T' ∷ b'T' ∷ b'P' ∷ b'/' ∷ b'1' ∷ b'.' ∷ [])

pub is_host_at : List ℕ → ℕ → Out Bool
is_host_at buf p = do
  b0 ← read buf p
  b1 ← read buf (p + 1)
  b2 ← read buf (p + 2)
  b3 ← read buf (p + 3)
  b4 ← read buf (p + 4)
  b5 ← read buf (p + 5)
  ok (
      b0 == 10
      && (b1 == b'H' || b1 == b'h')
      && (b2 == b'o' || b2 == b'O')
      && (b3 == b's' || b3 == b'S')
      && (b4 == b't' || b4 == b'T')
      && b5 == b':')

-- The loop: `n` positions from `p` on.
pub host_in : List ℕ → ℕ → ℕ → Out ℕ
host_in buf p zero = no
host_in buf p (suc n) = do
  found ← is_host_at buf p
  let rest = host_in buf (p + 1) n
  if found then ok p else rest

pub find_host_in : List ℕ → ℕ → ℕ → Out ℕ
find_host_in buf d bs = if ltb bs 6 then no else host_in buf d (bs - 6 + 1)

-- Where `*pHost` is null at first, as for every caller here.
pub http_find_host : List ℕ → ℕ → ℕ → Out ℕ
http_find_host buf d bs = do p ← find_host_in buf d bs; ok (p + 1)
