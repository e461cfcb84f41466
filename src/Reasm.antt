-- ===== src/Reasm.antt =====
-- nfq2/conntrack.c and conntrack.h: `t_reassemble`, the buffer that joins the segments of one
-- message. A payload is a pointer and a length in C, here the list of those bytes.
pub mod Safety
pub mod Stream
pub mod Join
mod Tests
use prizma.Base.{
  ℕ, ◌+◌, ◌-◌, ◌^◌, ◌≤◌, ◌<◌, ◌≡◌, Bool, true, false, not, ◌&&◌, Option, none, some, List, [], Out,
  ok, ◌>>=◌, ltb, leb, ◌==◌, if◌then◌else◌, length, take, sub32, sub64, wrap32, wrap64, memcpy,
  slice,
}

pub record Reasm : Type 0 where
  pub packet : Option (List ℕ)
  pub seq : ℕ
  pub size : ℕ
  pub size_present : ℕ

-- The allocated bytes; a null pointer has none.
abbrev pub memory : Option (List ℕ) → List ℕ
memory none = []
memory (some m) = m

unfoldable pub clear : Reasm → Reasm
clear r = record r { packet = none; size = 0; size_present = 0 }

-- `alloc` is what `malloc(size_requested)` returns.
unfoldable pub init : Option (List ℕ) → Reasm → ℕ → ℕ → Bool × Reasm
init none r size_requested seq_start = (false, record r { packet = none })
init (some m) r size_requested seq_start =
    (true, record { packet = some m; seq = seq_start; size = size_requested; size_present = 0 })

-- `alloc` is what `realloc(packet, new_size)` returns.
pub resize : Option (List ℕ) → Reasm → ℕ → Bool × Reasm
resize none r new_size = (false, r)
resize (some m) r new_size = (
  true,
  record r {
    packet = some m;
    size = new_size;
    size_present = if ltb new_size r.size_present then new_size else r.size_present;
  },
)

abbrev pub reasm_max_neg : ℕ
reasm_max_neg = 0x100000

-- The copy at the end of `ReasmFeed`, with `neg` the overlap that is left and `src` the bytes to copy.
pub store : Reasm → ℕ → List ℕ → Out (Bool × Reasm)
store r neg src = do
  let szcopy = length src
  packet ← memcpy (memory r.packet) (sub64 r.size_present neg) src
  let kept = record r { packet = some packet }
  ok (
    true,
    if ltb neg szcopy
        then record kept {
          size_present = wrap64 (r.size_present + sub64 szcopy neg);
          seq = wrap32 (r.seq + sub32 (wrap32 szcopy) neg);
        }
        else kept,
  )

pub feed : Reasm → ℕ → List ℕ → Out (Bool × Reasm)
feed r seq payload =
    let len = length payload in
    let dseq = sub32 seq r.seq in
    let neg_overlap = sub32 r.seq seq in
    let szignore = if ltb r.size_present neg_overlap then neg_overlap - r.size_present else 0 in
    let szcopy = len - szignore in
    let neg = neg_overlap - szignore in
    if not (dseq == 0) && ltb dseq reasm_max_neg
    then ok (false, r)
    else if ltb reasm_max_neg neg_overlap
    then ok (false, r)
    else if leb len szignore
    then ok (true, r)
    else if ltb r.size (wrap64 (sub64 r.size_present neg + szcopy))
    then ok (false, r)
    else store r neg (slice szignore szcopy payload)

pub has_space : Reasm → ℕ → Bool
has_space r len = leb (wrap64 (r.size_present + len)) r.size

pub is_empty : Reasm → Bool
is_empty r = r.size == 0

pub is_full : Reasm → Bool
unfolding is_empty
is_full r = not (is_empty r) && r.size == r.size_present

-- What `malloc` and `memcpy` leave: the memory has `size` bytes, and at most that many are filled.
-- No object of C has 2 ^ 63 bytes or more.
pub record IsValid (r : Reasm) : Type 0 where
  pub allocated : length (memory r.packet) ≡ r.size
  pub within : r.size_present ≤ r.size
  pub object : r.size < 2 ^ 63
  pub seq_word : r.seq < 2 ^ 32
