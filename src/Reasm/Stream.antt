-- ===== src/Reasm/Stream.antt =====
-- nfq2/conntrack.c: `ReasmFeed` and the sender's byte stream.
use prizma.Base.{
  ℕ, ◌+◌, ◌-◌, ◌^◌, ◌≤◌, ◌<◌, ◌≡◌, ◌∙◌, ap, Bool, List, ok, ltb, inl, inr, Bool-cases, ltb→lt,
  arith, length, splice, wrap32, byte_at, byte_at-slice, byte_at-splice_below,
  byte_at-splice_inside, byte_at-splice_above,
}
use prizma.Reasm.{Reasm, memory, feed, IsValid, reasm_max_neg}
use prizma.Reasm.Safety.{
  Fed, gap, far, before, full, kept, overlap, ignored, fresh, stored, feed-cases, length-fresh,
  Fed-IsValid,
}

-- The stream has the initial sequence number `origin`, and the message begins at its offset `base`.
pub record Holds (stream : ℕ → ℕ) (origin base : ℕ) (r : Reasm) : Type 0 where
  pub seq_at : r.seq ≡ wrap32 (origin + base + r.size_present)
  pub bytes : (i : ℕ) → i < r.size_present → byte_at (memory r.packet) i ≡ stream (base + i)

-- `payload` is what the stream has from offset `k` on.
pub record Segment (stream : ℕ → ℕ) (k : ℕ) (payload : List ℕ) : Type 0 where
  pub bytes : (j : ℕ) → j < length payload → byte_at payload j ≡ stream (k + j)

module _ (stream : ℕ → ℕ) (origin base : ℕ) (r : Reasm) (v : IsValid r)
    (h : Holds stream origin base r) (neg : ℕ) (src : List ℕ) (back : neg ≤ r.size_present)
    (fits : r.size_present - neg + length src ≤ r.size)
    (from : Segment stream (base + (r.size_present - neg)) src) where
  abbrev at : ℕ
  at = r.size_present - neg

  room : at + length src ≤ length (memory r.packet)
  room = omega (arith, v.allocated)

  stored_byte :
      (i : ℕ)
      → i < (stored r neg src).size_present
      → byte_at (splice (memory r.packet) at src) i ≡ stream (base + i)
  stored_byte i lt = elim (Bool-cases (ltb i at)) [
    | inl low ↦
        byte_at-splice_below (memory r.packet) at src room i (ltb→lt _ _ low)
        ∙ h.bytes i (ground arith)
    | inr low ↦ elim (Bool-cases (ltb i (at + length src))) [
      | inl mid ↦
          ap (λ (t : ℕ). byte_at (splice (memory r.packet) at src) t) {x = i} {y = at + (i - at)}
            (ground arith)
          ∙ byte_at-splice_inside (memory r.packet) at src room (i - at) (ground arith)
          ∙ from.bytes (i - at) (ground arith)
          ∙ ap stream (ground arith)
      | inr high ↦
          byte_at-splice_above (memory r.packet) at src room i (ground arith)
          ∙ h.bytes i (ground arith)
    ]
  ]

  stored-Holds : Holds stream origin base (stored r neg src)
  stored-Holds = record { seq_at = ground (arith, h.seq_at); bytes = stored_byte }

module _ (stream : ℕ → ℕ) (origin base : ℕ) (r : Reasm) (v : IsValid r)
    (h : Holds stream origin base r) (k : ℕ) (payload : List ℕ) (from : Segment stream k payload)
    (not_far_ahead : k + reasm_max_neg < base + r.size_present + 2 ^ 32)
    (not_far_behind : base + r.size_present < k + 2 ^ 32) where
  abbrev word : ℕ
  word = wrap32 (origin + k)

  -- An accepted segment does not begin after the end of what is there.
  overlap-eq : overlap r word ≤ reasm_max_neg → (k + overlap r word ≡ base + r.size_present)
  overlap-eq a = omega (arith, h.seq_at)

  fresh_byte :
      overlap r word ≤ reasm_max_neg
      → ignored r word < length payload
      → Segment stream
          (base + (r.size_present - (overlap r word - ignored r word)))
          (fresh r word payload)
  fresh_byte a b = record {
    bytes = λ j lt.
        byte_at-slice (ignored r word) (length payload - ignored r word) j payload
          (omega (arith, length-fresh r word payload b))
        ∙ from.bytes (ignored r word + j) (omega (arith, length-fresh r word payload b))
        ∙ ap stream (ground (arith, overlap-eq a));
  }

  pub Fed-Holds : (p : Bool × Reasm) → Fed r word payload p → Holds stream origin base p.1
  Fed-Holds p (gap a b) = h
  Fed-Holds p (far a) = h
  Fed-Holds p (before a b) = h
  Fed-Holds p (full a) = h
  Fed-Holds p (kept a b c) =
      stored-Holds stream origin base r v h (overlap r word - ignored r word) (fresh r word payload)
        (ground arith) (rw (length-fresh r word payload b) c) (fresh_byte a b)

  -- Fed any piece of the stream, early, late or overlapping, the buffer still holds the stream.
  pub feed-Holds :
      length payload < 2 ^ 63
      → (b : Bool) × (r' : Reasm) × (feed r word payload ≡ ok (b, r'))
        × IsValid r'
        × Holds stream origin base r'
  feed-Holds object =
      let (p, (e, f)) = feed-cases r word payload v (omega arith) object in
      (p.0, p.1, e, (Fed-IsValid r word payload p v f).0, Fed-Holds p f)
