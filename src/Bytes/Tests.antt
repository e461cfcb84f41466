-- ===== src/Bytes/Tests.antt =====
-- Runs of the byte-order helpers on concrete buffers.
use prizma.Base.{ℕ, ◌≡◌, refl, inl, List, [], ◌∷◌, ok, replicate, arith}
use prizma.Bytes.{
  pntoh16, pntoh24, pntoh32, pntoh48, pntoh64, phton16, phton24, phton32, phton48, phton64, bswap24,
}
use prizma.Bytes.Value.{IsBytes, all_bytes-IsBytes}
use prizma.Bytes.Roundtrip.{Restores, pntoh-phton}

reads : (pntoh24 (0 ∷ 1 ∷ 2 ∷ 3 ∷ []) 1 ≡ ok 0x010203) × (bswap24 0x010203 ≡ 0x030201)
unfolding pntoh24 bswap24
reads = (refl, refl)

abbrev zeros : List ℕ
zeros = replicate 10 0

zeros-IsBytes : IsBytes zeros
zeros-IsBytes = all_bytes-IsBytes zeros refl

pntoh-phton_example :
    Restores phton16 pntoh16 2 zeros 1 0x0102_0304 0
    × Restores phton24 pntoh24 3 zeros 1 0x0102_0304 0
    × Restores phton32 pntoh32 4 zeros 1 0x0102_0304 0
    × Restores phton48 pntoh48 6 zeros 1 0x0102_0304 0
    × Restores phton64 pntoh64 8 zeros 1 0x0102_0304 0
pntoh-phton_example =
    pntoh-phton zeros 1 0x0102_0304 0 zeros-IsBytes (omega arith) (inl (omega arith))
