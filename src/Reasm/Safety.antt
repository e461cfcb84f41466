-- ===== src/Reasm/Safety.antt =====
-- nfq2/conntrack.c: the operations on `t_reassemble` and its memory.
use prizma.Base.{
  ◌⊎◌, leb, Bool-cases, inl, inr, not, ◌&&◌, ◌==◌, ltb→lt, ℕ, ◌+◌, ◌-◌, ◌^◌, ◌≤◌, ◌<◌, ◌≡◌, refl,
  Bool, true, false, some, List, ok, ◌∙◌, arith, length, ltb, if◌then◌else◌, splice, slice,
  memcpy-in_range, length-splice, length-slice, sub32, sub64, wrap32, wrap64,
}
use prizma.Reasm.{Reasm, memory, clear, init, resize, store, feed, IsValid, reasm_max_neg}

pub clear-IsValid : (r : Reasm) → IsValid r → IsValid (clear r)
unfolding clear
clear-IsValid r v = record {
  allocated = refl;
  within = omega arith;
  object = omega arith;
  seq_word = v.seq_word;
}

pub init-IsValid :
    (m : List ℕ) (r : Reasm) (size seq : ℕ)
    → length m ≡ size
    → size < 2 ^ 63
    → seq < 2 ^ 32
    → IsValid (init (some m) r size seq).1
unfolding init
init-IsValid m r size seq e h w = record {
  allocated = e;
  within = omega arith;
  object = h;
  seq_word = w;
}

resize-IsValid :
    (m : List ℕ) (r : Reasm) (size : ℕ)
    → IsValid r
    → length m ≡ size
    → size < 2 ^ 63
    → IsValid (resize (some m) r size).1
unfolding resize
resize-IsValid m r size v e h = record {
  allocated = e;
  within = ground arith;
  object = h;
  seq_word = v.seq_word;
}

abbrev Kept : Bool × Reasm → Type 0
Kept p = IsValid p.1

-- The state that a copy leaves.
abbrev pub stored : Reasm → ℕ → List ℕ → Reasm
stored r neg src = record r {
  packet = some (splice (memory r.packet) (r.size_present - neg) src);
  size_present =
      if ltb neg (length src) then r.size_present + (length src - neg) else r.size_present;
  seq = if ltb neg (length src) then wrap32 (r.seq + (length src - neg)) else r.seq;
}

module _ (r : Reasm) (v : IsValid r) (neg : ℕ) (src : List ℕ) (back : neg ≤ r.size_present)
    (word : neg < 2 ^ 32) (fits : r.size_present - neg + length src ≤ r.size) where
  unwrapped : sub64 r.size_present neg ≡ r.size_present - neg
  unwrapped = omega (arith, v.within, v.object)

  grown :
      neg < length src
      → (wrap64 (r.size_present + sub64 (length src) neg) ≡ r.size_present + (length src - neg))
        × (wrap32 (r.seq + sub32 (wrap32 (length src)) neg) ≡ wrap32 (r.seq + (length src - neg)))
  grown h = omega (arith, v.within, v.object)

  pub store-eq : store r neg src ≡ ok (true, stored r neg src)
  unfolding store
  store-eq =
      rw
        (
          unwrapped,
          memcpy-in_range (memory r.packet) (r.size_present - neg) src (rw v.allocated fits),
        )
        (elim (Bool-cases (ltb neg (length src))) [
          | inl more ↦ rw more (let g = grown (ltb→lt _ _ more) in rw (g.0, g.1))
          | inr less ↦ rw less
        ])

  pub stored-IsValid : IsValid (stored r neg src)
  stored-IsValid = record {
    allocated =
        length-splice (memory r.packet) (r.size_present - neg) src (rw v.allocated fits)
        ∙ v.allocated;
    within = ground (arith, v.within);
    object = v.object;
    seq_word = ground (arith, v.seq_word);
  }

-- What a call of `feed` did: the parts of the payload that count, and whether they are stored.
abbrev pub overlap : Reasm → ℕ → ℕ
overlap r seq = sub32 r.seq seq

abbrev pub ignored : Reasm → ℕ → ℕ
ignored r seq = if ltb r.size_present (overlap r seq) then overlap r seq - r.size_present else 0

abbrev pub fresh : Reasm → ℕ → List ℕ → List ℕ
fresh r seq payload = slice (ignored r seq) (length payload - ignored r seq) payload

-- The four ways in which `feed` returns, each with its reason.
pub data Fed (r : Reasm) (seq : ℕ) (payload : List ℕ) : Bool × Reasm → Type 0 where
  gap : 0 < sub32 seq r.seq → sub32 seq r.seq < reasm_max_neg → Fed r seq payload (false, r)
  far : reasm_max_neg < overlap r seq → Fed r seq payload (false, r)
  before :
      overlap r seq ≤ reasm_max_neg → length payload ≤ ignored r seq → Fed r seq payload (true, r)
  full :
      r.size < r.size_present - (overlap r seq - ignored r seq) + (length payload - ignored r seq)
      → Fed r seq payload (false, r)
  kept :
      overlap r seq ≤ reasm_max_neg
      → ignored r seq < length payload
      → r.size_present - (overlap r seq - ignored r seq) + (length payload - ignored r seq) ≤ r.size
      → Fed r seq payload (true, stored r (overlap r seq - ignored r seq) (fresh r seq payload))

pub length-fresh :
    (r : Reasm) (seq : ℕ) (payload : List ℕ)
    → ignored r seq < length payload
    → length (fresh r seq payload) ≡ length payload - ignored r seq
length-fresh r seq payload h =
    length-slice (ignored r seq) (length payload - ignored r seq) payload (omega arith)

module _ (r : Reasm) (seq : ℕ) (payload : List ℕ) (v : IsValid r) (w : seq < 2 ^ 32)
    (object : length payload < 2 ^ 63) where
  abbrev pub IsFed : Bool × Reasm → Type 0
  IsFed p = (feed r seq payload ≡ ok p) × Fed r seq payload p

  abbrev far_back : Bool
  far_back = ltb reasm_max_neg (overlap r seq)

  abbrev ahead : Bool
  ahead = not (sub32 seq r.seq == 0) && ltb (sub32 seq r.seq) reasm_max_neg

  abbrev too_big : Bool
  too_big = ltb r.size (
      wrap64
        (sub64 r.size_present (overlap r seq - ignored r seq) + (length payload - ignored r seq)))

  ignored_word : overlap r seq - ignored r seq ≤ r.size_present
  ignored_word = ground arith

  no_wrap :
      wrap64
        (sub64 r.size_present (overlap r seq - ignored r seq) + (length payload - ignored r seq))
      ≡ r.size_present - (overlap r seq - ignored r seq) + (length payload - ignored r seq)
  no_wrap = omega (arith, ignored_word, v.within, v.object)

  feed-store :
      ahead ≡ false
      → far_back ≡ false
      → leb (length payload) (ignored r seq) ≡ false
      → too_big ≡ false
      → (p : Bool × Reasm) × IsFed p
  unfolding feed
  feed-store a b c d =
      let some_left : ignored r seq < length payload = ground arith in
      let fits : r.size_present - (overlap r seq - ignored r seq) + (length payload - ignored r seq)
          ≤ r.size =
        ground (arith, no_wrap) in
      (
        (true, stored r (overlap r seq - ignored r seq) (fresh r seq payload)),
        (
          rw (a, b, c, d)
              (store-eq r v (overlap r seq - ignored r seq) (fresh r seq payload) ignored_word
                (omega arith) (rw (length-fresh r seq payload some_left) fits)),
          kept (ground arith) some_left fits,
        ),
      )

  pub feed-cases : (p : Bool × Reasm) × IsFed p
  unfolding feed
  feed-cases = elim (Bool-cases ahead) [
    | inl a ↦ ((false, r), (rw a, gap (ground arith) (ground arith)))
    | inr a ↦ elim (Bool-cases far_back) [
      | inl b ↦ ((false, r), (rw (a, b), far (ground arith)))
      | inr b ↦ elim (Bool-cases (leb (length payload) (ignored r seq))) [
        | inl c ↦ ((true, r), (rw (a, b, c), before (ground arith) (ground arith)))
        | inr c ↦ elim (Bool-cases too_big) [
          | inl d ↦ ((false, r), (rw (a, b, c, d), full (ground (arith, no_wrap))))
          | inr d ↦ feed-store a b c d
        ]
      ]
    ]
  ]

pub Fed-IsValid :
    (r : Reasm) (seq : ℕ) (payload : List ℕ) (p : Bool × Reasm)
    → IsValid r
    → Fed r seq payload p
    → IsValid p.1 × ((p.0 ≡ true) ⊎ (p.1 ≡ r))
Fed-IsValid r seq payload p v (gap a b) = (v, inr refl)
Fed-IsValid r seq payload p v (far a) = (v, inr refl)
Fed-IsValid r seq payload p v (before a b) = (v, inr refl)
Fed-IsValid r seq payload p v (full a) = (v, inr refl)
Fed-IsValid r seq payload p v (kept a b c) = (
  stored-IsValid r v (overlap r seq - ignored r seq) (fresh r seq payload) (ground arith)
      (omega arith) (rw (length-fresh r seq payload b) c),
  inl refl,
)

-- For every segment of fewer than 2 ^ 63 bytes, `ReasmFeed` on a well-formed buffer returns without a write outside the
-- memory, leaves the buffer well formed, and returns true or has changed nothing.
pub feed-IsValid :
    (r : Reasm) (seq : ℕ) (payload : List ℕ)
    → IsValid r
    → seq < 2 ^ 32
    → length payload < 2 ^ 63
    → (b : Bool) × (r' : Reasm) × (feed r seq payload ≡ ok (b, r'))
      × IsValid r'
      × ((b ≡ true) ⊎ (r' ≡ r))
feed-IsValid r seq payload v w h =
    let (p, (e, f)) = feed-cases r seq payload v w h in
    let (keeps, same) = Fed-IsValid r seq payload p v f in (p.0, p.1, e, keeps, same)
