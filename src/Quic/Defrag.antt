-- ===== src/Quic/Defrag.antt =====
-- nfq2/protocol.c: `QUICDefragCrypto`, which puts the CRYPTO frames of a decrypted packet together.
pub mod Safety
pub mod Merge
mod Tests
use prizma.Base.{
  ℕ, zero, suc, ◌+◌, ◌-◌, ◌*◌, ◌^◌, Bool, true, false, not, ◌&&◌, ◌||◌, List, [], ◌∷◌, ◌++◌, Out,
  ok, no, fault, ◌>>=◌, ◌>>◌, guard, ltb, leb, ◌==◌, if◌then◌else◌, read, slice, memcpy, wrap64,
  length, replicate, max,
}
use Prim.Native.Nat.{bit_or}
use prizma.Bytes.{phton64}
use prizma.Quic.{Varint, tvb_get_varint, tvb_get_size}

pub record Range : Type 0 where
  pub offset : ℕ
  pub len : ℕ

abbrev pub max_defrag_pieces : ℕ
max_defrag_pieces = 128

-- The variables of the loop; `defrag` is the whole output buffer, its data begin at 10. `ranges` are in
-- the order in which they came.
pub record State : Type 0 where
  pub pos : ℕ
  pub szmax : ℕ
  pub zeropos : ℕ
  pub found : Bool
  pub ranges : List Range
  pub defrag : List ℕ

-- `goto skip_range` is taken where a range is there already.
pub has_range : List Range → ℕ → ℕ → Bool
has_range [] offset sz = false
has_range (r ∷ rs) offset sz = r.offset == offset && r.len == sz || has_range rs offset sz

-- A piece of the stream is stored, after a gap before it is zeroed.
pub store_piece : State → ℕ → List ℕ → Out State
store_piece s offset piece = do
  let sz = length piece
  zeroed ←
      (if ltb s.zeropos offset
        then memcpy s.defrag (10 + s.zeropos) (replicate (offset - s.zeropos) 0)
        else ok s.defrag)
  defrag ← memcpy zeroed (10 + offset) piece
  ok (record s {
    zeropos = if ltb s.zeropos (offset + sz) then offset + sz else s.zeropos;
    found = true;
    szmax = if ltb s.szmax (offset + sz) then offset + sz else s.szmax;
    defrag = defrag;
    ranges = s.ranges ++ (record { offset = offset; len = sz } ∷ []);
  })

-- One CRYPTO frame, from behind its type at `pos`.
pub crypto_frame : List ℕ → ℕ → ℕ → State → ℕ → Out State
crypto_frame buf d len s pos = do
  guard (ltb pos len)
  guard (not (leb max_defrag_pieces (length s.ranges)))
  b ← read buf (d + pos)
  guard (ltb (pos + tvb_get_size b) len)
  offset ← tvb_get_varint buf (d + pos)
  let pos2 = pos + offset.size
  b' ← read buf (d + pos2)
  guard (leb (pos2 + tvb_get_size b') len)
  sz ← tvb_get_varint buf (d + pos2)
  let pos3 = pos2 + sz.size
  guard (leb (wrap64 (pos3 + sz.value)) len)
  guard (leb (wrap64 (offset.value + sz.value)) (length s.defrag - 10))
  s' ←
      (if has_range s.ranges offset.value sz.value
        then ok s
        else store_piece s offset.value (slice (d + pos3) sz.value buf))
  ok (record s' { pos = pos3 + sz.value })

-- The loop. It has run out of fuel where it returns `fault`.
pub frames : ℕ → List ℕ → ℕ → ℕ → State → Out State
frames zero buf d len s = fault
frames (suc fuel) buf d len s =
    if ltb s.pos len
    then (read buf (d + s.pos) >>= λ ft.
        (if leb ft 1
          then ok (record s { pos = s.pos + 1 })
          else (guard (ft == 6) >> crypto_frame buf d len s (s.pos + 1)))
        >>= λ s'. frames fuel buf d len s')
    else ok s

-- The loop that joins sorted ranges, with the range that grows.
pub join_ranges : Range → List Range → List Range
join_ranges r [] = r ∷ []
join_ranges r (x ∷ xs) =
    let current_end = r.offset + r.len in
    let next_end = x.offset + x.len in
    elim (leb x.offset current_end) [
      | true ↦ join_ranges (record r { len = max next_end current_end - r.offset }) xs
      | false ↦ r ∷ join_ranges x xs
    ]

pub merge_ranges : List Range → List Range
merge_ranges [] = []
merge_ranges (x ∷ xs) = join_ranges x xs

-- `range==1 && !ranges[0].offset`
pub is_full : List Range → Bool
is_full (r ∷ []) = r.offset == 0
is_full _ = false

-- What is returned with true.
pub record Defragged : Type 0 where
  pub defrag : List ℕ
  pub defrag_len : ℕ
  pub full : Bool

-- `qsort` is the library's.
pub finish : (List Range → List Range) → State → Out Defragged
finish qsort s = do
  guard s.found
  defrag ← memcpy s.defrag 0 (6 ∷ 0 ∷ [])
  defrag ← phton64 defrag 2 s.szmax
  b ← read defrag 2
  defrag ← memcpy defrag 2 (bit_or b 0xc0 ∷ [])
  ok (record {
    defrag = defrag;
    defrag_len = s.szmax + 10;
    full = is_full (merge_ranges (qsort s.ranges));
  })

pub quic_defrag_crypto : (List Range → List Range) → List ℕ → ℕ → ℕ → List ℕ → Out Defragged
quic_defrag_crypto qsort buf d len defrag = do
  guard (not (ltb (length defrag) 10))
  s ←
      frames (len + 1) buf d len
        (record { pos = 0; szmax = 0; zeropos = 0; found = false; ranges = []; defrag = defrag })
  finish qsort s
