-- ===== src/Reasm/Join.antt =====
-- nfq2/conntrack.c: `ReasmInit` and `ReasmFeed` on consecutive segments.
use mathlib.Core.List.{flatten, append_assoc}
use mathlib.Core.Path.{subst}
use prizma.Base.{
  ℕ, ◌+◌, ◌^◌, ◌≤◌, ◌<◌, ◌≡◌, ◌∙◌, sym, ap, refl, Bool, true, false, some, List, [], ◌∷◌, ◌++◌, Out,
  ok, ◌>>=◌, if◌then◌else◌, arith, length, length-append, wrap32, byte_at, get_or-append_left,
  get_or-append_right, get_or_ext,
}
use prizma.Reasm.{Reasm, memory, feed, init, is_full, IsValid}
use prizma.Reasm.Safety.{Fed, gap, far, before, full, kept, feed-cases, length-fresh, Fed-IsValid}
use prizma.Reasm.Stream.{Holds, Segment, Fed-Holds}

-- Feeds consecutive segments, the first with the sequence number `seq`.
pub join : Reasm → ℕ → List (List ℕ) → Out (Bool × Reasm)
join r seq [] = ok (true, r)
join r seq (p ∷ ps) =
    feed r seq p >>= λ (b, r'). if b then join r' (wrap32 (seq + length p)) ps else ok (false, r')

abbrev pub total : List (List ℕ) → ℕ
total [] = 0
total (p ∷ ps) = length p + total ps

abbrev Segments : (ℕ → ℕ) → ℕ → List (List ℕ) → Type 0
Segments stream k [] = Unit
Segments stream k (p ∷ ps) = Segment stream k p × Segments stream (k + length p) ps

-- What a segment that comes in order does.
record InOrder (r : Reasm) (payload : List ℕ) (p : Bool × Reasm) : Type 0 where
  accepted : p.0 ≡ true
  size_present : p.1.size_present ≡ r.size_present + length payload
  size : p.1.size ≡ r.size

Fed-InOrder :
    (r : Reasm) (seq : ℕ) (payload : List ℕ) (p : Bool × Reasm)
    → IsValid r
    → r.seq ≡ seq
    → r.size_present + length payload ≤ r.size
    → Fed r seq payload p
    → InOrder r payload p
Fed-InOrder r seq payload p v here fits (gap a b) = absurd (omega (arith, v.seq_word))
Fed-InOrder r seq payload p v here fits (far a) = absurd (omega (arith, v.seq_word))
Fed-InOrder r seq payload p v here fits (before a b) = record {
  accepted = refl;
  size_present = ground (arith, v.seq_word);
  size = refl;
}
Fed-InOrder r seq payload p v here fits (full a) = absurd (ground (arith, v.seq_word))
Fed-InOrder r seq payload p v here fits (kept a b c) = record {
  accepted = refl;
  size_present = ground (arith, v.seq_word, length-fresh r seq payload b);
  size = refl;
}

module _ (stream : ℕ → ℕ) (origin : ℕ) where
  -- The state in which the next consecutive segment comes.
  record Ready (r : Reasm) : Type 0 where
    valid : IsValid r
    holds : Holds stream origin 0 r

  feed-Ready :
      (r : Reasm) (payload : List ℕ)
      → Ready r
      → r.size_present + length payload ≤ r.size
      → Segment stream r.size_present payload
      → (r' : Reasm) × (feed r (wrap32 (origin + r.size_present)) payload ≡ ok (true, r'))
        × Ready r'
        × (r'.size_present ≡ r.size_present + length payload)
        × (r'.size ≡ r.size)
  feed-Ready r payload y fits seg =
      let word = wrap32 (origin + r.size_present) in
      let here : r.seq ≡ word = y.holds.seq_at ∙ ap (λ (t : ℕ). wrap32 t) (omega arith) in
      let (p, (e, f)) =
        feed-cases r word payload y.valid (omega arith) (omega (arith, y.valid.object)) in
      let i = Fed-InOrder r word payload p y.valid here fits f in
      (
        p.1,
        e ∙ ap (λ (b : Bool). ok (b, p.1)) i.accepted,
        record {
          valid = (Fed-IsValid r word payload p y.valid f).0;
          holds =
              Fed-Holds stream origin 0 r y.valid y.holds r.size_present payload seg (omega arith)
                (omega arith) p f;
        },
        i.size_present,
        i.size,
      )

  join-Ready :
      (ps : List (List ℕ)) (r : Reasm)
      → Ready r
      → r.size_present + total ps ≡ r.size
      → Segments stream r.size_present ps
      → (r' : Reasm) × (join r (wrap32 (origin + r.size_present)) ps ≡ ok (true, r'))
        × Ready r'
        × (r'.size_present ≡ r.size)
        × (r'.size ≡ r.size)
  unfolding join
  join-Ready [] r y e s = (r, refl, y, omega arith, refl)
  join-Ready (p ∷ ps) r y e s =
      let (r1, e1, y1, n1, z1) = feed-Ready r p y (omega arith) s.0 in
      let (r2, e2, y2, n2, z2) =
        join-Ready ps r1 y1 (omega arith) (subst (λ k. Segments stream k ps) (sym n1) s.1) in
      (
        r2,
        rw e1 (
            ap (λ (t : ℕ). join r1 t ps) {y = wrap32 (origin + r1.size_present)} (omega arith)
            ∙ e2),
        y2,
        omega arith,
        omega arith,
      )

Segments-append :
    (pre : List ℕ) (ps : List (List ℕ)) → Segments (byte_at (pre ++ flatten ps)) (length pre) ps
unfolding flatten
Segments-append pre [] = tt
Segments-append pre (p ∷ ps) = (
  record {
    bytes = λ j lt.
        sym (
          get_or-append_right pre (p ++ flatten ps) j 0 ∙ get_or-append_left p (flatten ps) j 0 lt);
  },
  subst (λ k. Segments (byte_at (pre ++ (p ++ flatten ps))) k ps) (length-append pre p)
      (subst (λ l. Segments (byte_at l) (length (pre ++ p)) ps) (append_assoc pre p (flatten ps))
        (Segments-append (pre ++ p) ps)),
)

length-flatten : (ps : List (List ℕ)) → length (flatten ps) ≡ total ps
unfolding flatten
length-flatten [] = refl
length-flatten (p ∷ ps) = omega (arith, length-append p (flatten ps), length-flatten ps)

-- A message that comes in consecutive segments, in any number of pieces and from any sequence
-- number, fills the buffer allocated for its length exactly: every segment is accepted, the buffer is
-- full, and its memory is the segments one after the other.
pub join-init :
    (m : List ℕ) (r : Reasm) (seq : ℕ) (ps : List (List ℕ))
    → length m ≡ total ps
    → 0 < total ps
    → total ps < 2 ^ 63
    → seq < 2 ^ 32
    → (r' : Reasm) × (join (init (some m) r (total ps) seq).1 seq ps ≡ ok (true, r'))
      × (is_full r' ≡ true)
      × (memory r'.packet ≡ flatten ps)
join-init m r seq ps e pos h w =
    let start = (init (some m) r (total ps) seq).1 in
    let ready : Ready (byte_at (flatten ps)) seq start =
      unfold init in
      record {
        valid = record { allocated = e; within = omega arith; object = h; seq_word = w };
        holds = record { seq_at = omega arith; bytes = λ i lt. absurd (omega arith) };
      } in
    let (r', e', y, n, z) =
      join-Ready (byte_at (flatten ps)) seq ps start ready (unfold init in omega arith)
        (unfold init in Segments-append [] ps) in
    let size_eq : r'.size ≡ total ps = z ∙ (unfold init in refl) in
    (
      r',
      ap (λ (t : ℕ). join start t ps) {x = seq} {y = wrap32 (seq + start.size_present)}
            (unfold init in omega arith)
          ∙ e',
      unfold is_full in ground arith,
      get_or_ext 0 (memory r'.packet) (flatten ps)
          (omega (arith, y.valid.allocated, length-flatten ps))
          (λ i lt.
            y.holds.bytes i (omega (arith, y.valid.allocated))
            ∙ ap (λ (t : ℕ). byte_at (flatten ps) t) {y = i} (omega arith)),
    )
