-- ===== src/Quic/Defrag/Merge.antt =====
-- nfq2/protocol.c: the ranges of `QUICDefragCrypto` after they are sorted.
use mathlib.Core.Path.{subst}
use prizma.Base.{
  sym, ℕ, ◌+◌, ◌-◌, ◌≤◌, ◌<◌, ◌≡◌, refl, ◌↔◌, inl, inr, true, false, List, [], ◌∷◌, leb, ◌==◌, max,
  arith, Bool-cases,
}
use prizma.Quic.Defrag.{Range, join_ranges, merge_ranges, is_full}

-- A position lies in one of the ranges.
pub data Covers (x : ℕ) : List Range → Type 0 where
  here : {r : Range} {rs : List Range} → r.offset ≤ x → x < r.offset + r.len → Covers x (r ∷ rs)
  there : {r : Range} {rs : List Range} → Covers x rs → Covers x (r ∷ rs)

-- The ranges begin in ascending order, not before `lo`.
abbrev pub Ascending : ℕ → List Range → Type 0
Ascending lo [] = Unit
Ascending lo (r ∷ rs) = (lo ≤ r.offset) × Ascending r.offset rs

Ascending-lower : (lo lo' : ℕ) (rs : List Range) → lo ≤ lo' → Ascending lo' rs → Ascending lo rs
Ascending-lower lo lo' [] h a = tt
Ascending-lower lo lo' (r ∷ rs) h a = (omega (arith, a.0), a.1)

-- Two ranges that touch, as one.
joined : Range → Range → Range
joined r x = record r { len = max (x.offset + x.len) (r.offset + r.len) - r.offset }

join-touch :
    (r x : Range) (xs : List Range)
    → leb x.offset (r.offset + r.len) ≡ true
    → join_ranges r (x ∷ xs) ≡ join_ranges (joined r x) xs
unfolding join_ranges joined
join-touch r x xs e = rw (e, join_ranges) refl

join-apart :
    (r x : Range) (xs : List Range)
    → leb x.offset (r.offset + r.len) ≡ false
    → join_ranges r (x ∷ xs) ≡ r ∷ join_ranges x xs
unfolding join_ranges
join-apart r x xs e = rw (e, join_ranges) refl

joined-left :
    (p : ℕ) (r x : Range) (xs : List Range)
    → r.offset ≤ x.offset
    → leb x.offset (r.offset + r.len) ≡ true
    → Covers p (joined r x ∷ xs)
    → Covers p (r ∷ (x ∷ xs))
unfolding joined
joined-left p r x xs le touch (here a b) = elim (Bool-cases (leb (r.offset + r.len) p)) [
  | inl q ↦ there (here (ground arith) (ground arith))
  | inr q ↦ here a (ground arith)
]
joined-left p r x xs le touch (there c) = there (there c)

joined-right :
    (p : ℕ) (r x : Range) (xs : List Range)
    → r.offset ≤ x.offset
    → Covers p (r ∷ (x ∷ xs))
    → Covers p (joined r x ∷ xs)
unfolding joined
joined-right p r x xs le (here a b) = here a (omega arith)
joined-right p r x xs le (there (here a b)) = here (omega arith) (omega arith)
joined-right p r x xs le (there (there c)) = there c

Covers-tail :
    (p : ℕ) (r : Range) (xs ys : List Range)
    → (Covers p xs → Covers p ys)
    → Covers p (r ∷ xs)
    → Covers p (r ∷ ys)
Covers-tail p r xs ys f (here a b) = here a b
Covers-tail p r xs ys f (there c) = there (f c)

join-left :
    (p : ℕ) (r : Range) (xs : List Range)
    → Ascending r.offset xs
    → Covers p (join_ranges r xs)
    → Covers p (r ∷ xs)
unfolding join_ranges joined
join-left p r [] a c = c
join-left p r (x ∷ xs) a c = elim (Bool-cases (leb x.offset (r.offset + r.len))) [
  | inl t ↦ joined-left p r x xs a.0 t (
      join-left p (joined r x) xs (Ascending-lower r.offset x.offset xs a.0 a.1)
        (subst (Covers p) (join-touch r x xs t) c))
  | inr t ↦
      Covers-tail p r (join_ranges x xs) (x ∷ xs) (join-left p x xs a.1)
        (subst (Covers p) (join-apart r x xs t) c)
]

join-right :
    (p : ℕ) (r : Range) (xs : List Range)
    → Ascending r.offset xs
    → Covers p (r ∷ xs)
    → Covers p (join_ranges r xs)
unfolding join_ranges joined
join-right p r [] a c = c
join-right p r (x ∷ xs) a c = elim (Bool-cases (leb x.offset (r.offset + r.len))) [
  | inl t ↦ subst (Covers p) (sym (join-touch r x xs t)) (
      join-right p (joined r x) xs (Ascending-lower r.offset x.offset xs a.0 a.1)
        (joined-right p r x xs a.0 c))
  | inr t ↦
      subst (Covers p) (sym (join-apart r x xs t))
        (Covers-tail p r (x ∷ xs) (join_ranges x xs) (join-right p x xs a.1) c)
]

-- Joining ranges that ascend keeps the positions that they cover, and no other.
pub merge_ranges-Covers :
    (p : ℕ) (rs : List Range) → Ascending 0 rs → Covers p (merge_ranges rs) ↔ Covers p rs
unfolding merge_ranges
merge_ranges-Covers p [] a = (λ c. c, λ c. c)
merge_ranges-Covers p (r ∷ rs) a = (join-left p r rs a.1, join-right p r rs a.1)

one-range : (p : ℕ) (r : Range) → (r.offset == 0) ≡ true → Covers p (r ∷ []) → p < r.len
one-range p r e (here a b) = ground arith
one-range p r e (there c) = elim c [ ]

-- One range from 0 on covers what is below its end.
is_full-Covers : (ms : List Range) → is_full ms ≡ true → (n : ℕ) × ((p : ℕ) → Covers p ms ↔ (p < n))
unfolding is_full
is_full-Covers [] e = cc
is_full-Covers (r ∷ []) e = (r.len, λ p. (one-range p r e, λ h. here (ground arith) (ground arith)))
is_full-Covers (r ∷ (x ∷ xs)) e = cc

-- Where the ranges ascend and the test for a full message holds of what they are joined to, they cover
-- the positions below some end and no other: there is no gap.
pub merge_ranges-full :
    (rs : List Range)
    → Ascending 0 rs
    → is_full (merge_ranges rs) ≡ true
    → (n : ℕ) × ((p : ℕ) → Covers p rs ↔ (p < n))
merge_ranges-full rs a e =
    let f = is_full-Covers (merge_ranges rs) e in
    (
      f.0,
      λ p.
          let m = merge_ranges-Covers p rs a in
          let g = f.1 p in (λ c. g.0 (m.1 c), λ h. m.0 (g.1 h)),
    )
