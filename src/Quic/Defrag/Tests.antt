-- ===== src/Quic/Defrag/Tests.antt =====
-- A packet with seven bytes of a message in two CRYPTO frame_bytes, the second one first.
use prizma.Base.{ℕ, ◌<◌, ◌≡◌, ◌↔◌, refl, true, List, [], ◌∷◌, length, replicate, Ensures, arith}
use prizma.Bytes.Value.{IsBytes, all_bytes-IsBytes}
use prizma.Quic.Defrag.{Range, merge_ranges, is_full, join_ranges, quic_defrag_crypto}
use prizma.Quic.Defrag.Safety.{Sized, quic_defrag_crypto-Sized}
use prizma.Quic.Defrag.Merge.{Covers, merge_ranges-Covers, merge_ranges-full}

abbrev frame_bytes : List ℕ
frame_bytes = 0 ∷ 6 ∷ 4 ∷ 3 ∷ 50 ∷ 51 ∷ 52 ∷ 6 ∷ 0 ∷ 4 ∷ 1 ∷ 0 ∷ 0 ∷ 3 ∷ []

frame_bytes-IsBytes : IsBytes frame_bytes
frame_bytes-IsBytes = all_bytes-IsBytes frame_bytes refl

abbrev room : List ℕ
room = replicate 30 0

quic_defrag_crypto-Sized_example :
    Ensures (Sized (length room)) (quic_defrag_crypto (λ rs. rs) frame_bytes 0 14 room)
quic_defrag_crypto-Sized_example =
    quic_defrag_crypto-Sized (λ rs. rs) frame_bytes 0 14 room frame_bytes-IsBytes (omega arith)
      (omega arith)

abbrev pieces : List Range
pieces = record { offset = 0; len = 4 } ∷ record { offset = 4; len = 3 } ∷ []

pieces-full : is_full (merge_ranges pieces) ≡ true
unfolding is_full merge_ranges join_ranges
pieces-full = refl

merge_ranges-full_example : (n : ℕ) × ((p : ℕ) → Covers p pieces ↔ (p < n))
merge_ranges-full_example = merge_ranges-full pieces (omega arith, (omega arith, tt)) pieces-full

merge_ranges-Covers_example : Covers 5 (merge_ranges pieces) ↔ Covers 5 pieces
merge_ranges-Covers_example = merge_ranges-Covers 5 pieces (omega arith, (omega arith, tt))
