-- ===== src/Reasm/Tests.antt =====
-- Runs of the reassembly buffer on concrete segments.
use prizma.Base.{
  ◌⊎◌, ℕ, zero, suc, ◌≤◌, ◌+◌, ◌≡◌, refl, Bool, true, false, some, List, [], ◌∷◌, ok, splice, slice,
  memcpy, arith, byte_at,
}
use prizma.Reasm.{Reasm, memory, init, feed, store, is_full, IsValid}
use prizma.Reasm.Safety.{feed-IsValid}
use prizma.Reasm.Stream.{Holds, Segment, feed-Holds}
use prizma.Reasm.Join.{join, join-init}
use mathlib.Core.List.{flatten}

-- Four bytes are expected, and two of them, 1 and 2, are there; the sequence numbers wrap.
abbrev half : Reasm
half = record { packet = some (1 ∷ 2 ∷ 0 ∷ 0 ∷ []); seq = 1; size = 4; size_present = 2 }

half-IsValid : IsValid half
half-IsValid = record {
  allocated = refl;
  within = omega arith;
  object = omega arith;
  seq_word = omega arith;
}

overlapping :
    feed half 0 (2 ∷ 3 ∷ [])
    ≡ ok (true, record half { packet = some (1 ∷ 2 ∷ 3 ∷ 0 ∷ []); seq = 2; size_present = 3 })
unfolding feed store memcpy splice slice
overlapping = refl

gap_refused : feed half 3 (2 ∷ 3 ∷ []) ≡ ok (false, half)
unfolding feed
gap_refused = refl

abbrev counting : ℕ → ℕ
counting n = n + 1

half-Holds : Holds counting 0xffff_ffff 0 half
half-Holds = record { seq_at = refl; bytes = half_bytes }
  where
    half_bytes : (i : ℕ) → suc i ≤ 2 → byte_at (1 ∷ 2 ∷ 0 ∷ 0 ∷ []) i ≡ counting (0 + i)
    half_bytes zero h = refl
    half_bytes (suc zero) h = refl
    half_bytes (suc (suc i)) h = absurd (omega arith)

piece-Segment : Segment counting 1 (2 ∷ 3 ∷ [])
piece-Segment = record { bytes = piece }
  where
    piece : (j : ℕ) → suc j ≤ 2 → byte_at (2 ∷ 3 ∷ []) j ≡ counting (1 + j)
    piece zero h = refl
    piece (suc zero) h = refl
    piece (suc (suc i)) h = absurd (omega arith)

feed-IsValid_example :
    (b : Bool) × (r' : Reasm) × (feed half 0 (2 ∷ 3 ∷ []) ≡ ok (b, r'))
    × IsValid r'
    × ((b ≡ true) ⊎ (r' ≡ half))
feed-IsValid_example = feed-IsValid half 0 (2 ∷ 3 ∷ []) half-IsValid (omega arith) (omega arith)

feed-Holds_example :
    (b : Bool) × (r' : Reasm) × (feed half 0 (2 ∷ 3 ∷ []) ≡ ok (b, r'))
    × IsValid r'
    × Holds counting 0xffff_ffff 0 r'
feed-Holds_example =
    feed-Holds counting 0xffff_ffff 0 half half-IsValid half-Holds 1 (2 ∷ 3 ∷ []) piece-Segment
      (omega arith) (omega arith) (omega arith)

abbrev pieces : List (List ℕ)
pieces = (1 ∷ 2 ∷ []) ∷ [] ∷ (3 ∷ []) ∷ []

join-init_example :
    (r' : Reasm) × (join (init (some (9 ∷ 9 ∷ 9 ∷ [])) half 3 0xffff_ffff).1 0xffff_ffff pieces
      ≡ ok (true, r'))
    × (is_full r' ≡ true)
    × (memory r'.packet ≡ flatten pieces)
join-init_example =
    join-init (9 ∷ 9 ∷ 9 ∷ []) half 0xffff_ffff pieces refl (omega arith) (omega arith)
      (omega arith)
