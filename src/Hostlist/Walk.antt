-- ===== src/Hostlist/Walk.antt =====
-- nfq2/hostlist.c: the loop of `SearchHostList` over the parents of a host.
use mathlib.Core.List.{append_assoc}
use prizma.Base.{
  ℕ, zero, suc, ◌<◌, ◌≡◌, ◌⊎◌, ◌∙◌, ap, sym, refl, Bool, true, false, none, some, List, [], ◌∷◌,
  ◌++◌, ◌==◌, length, arith, Bool-cases, Option-cases, inl, inr,
}
use prizma.Text.{strchr}
use prizma.Hostlist.{Pools, is_strict, after_dot, entry_hit, search_loop}

-- The first dot of a text that has one, and what is after it.
record Dot (p : List ℕ) : Type 0 where
  pre : List ℕ
  rest : List ℕ
  found : strchr b'.' p ≡ some (b'.' ∷ rest)
  split : p ≡ pre ++ (b'.' ∷ rest)

Dot-cases : (p : List ℕ) → (strchr b'.' p ≡ none) ⊎ Dot p
unfolding strchr
Dot-cases [] = inl refl
Dot-cases (c ∷ s) = elim (Bool-cases (c == b'.')) [
  | inl e ↦
      let is_dot : c ≡ b'.' = ground arith in
      inr (record {
        pre = [];
        rest = s;
        found = rw (e, strchr) (ap (λ (x : ℕ). some (x ∷ s)) is_dot);
        split = ap (λ (x : ℕ). x ∷ s) is_dot;
      })
  | inr e ↦ elim (Dot-cases s) [
    | inl n ↦ inl (rw (e, strchr) n)
    | inr d ↦ inr (record {
      pre = c ∷ d.pre;
      rest = d.rest;
      found = rw (e, strchr) d.found;
      split = ap (λ (x : List ℕ). c ∷ x) d.split;
    })
  ]
]

-- Where a text has a dot, the first one is that or one before it.
record FirstDot (pre name : List ℕ) : Type 0 where
  rest : List ℕ
  found : strchr b'.' (pre ++ (b'.' ∷ name)) ≡ some (b'.' ∷ rest)
  shorter : length rest < length (pre ++ (b'.' ∷ name))
  left : (rest ≡ name) ⊎ ((q : List ℕ) × (rest ≡ q ++ (b'.' ∷ name)))

FirstDot-at : (pre name : List ℕ) → FirstDot pre name
unfolding strchr
FirstDot-at [] name = record { rest = name; found = refl; shorter = omega arith; left = inl refl }
FirstDot-at (c ∷ s) name = elim (Bool-cases (c == b'.')) [
  | inl e ↦
      let is_dot : c ≡ b'.' = ground arith in
      record {
        rest = s ++ (b'.' ∷ name);
        found = rw (e, strchr) (ap (λ (x : ℕ). some (x ∷ (s ++ (b'.' ∷ name)))) is_dot);
        shorter = omega arith;
        left = inr (s, refl);
      }
  | inr e ↦
      let f = FirstDot-at s name in
      record {
        rest = f.rest;
        found = rw (e, strchr) f.found;
        shorter = omega (arith, f.shorter);
        left = f.left;
      }
]

pub true_not_false : (b : Bool) → b ≡ true → b ≡ false → ⊥
true_not_false true h k = cc
true_not_false false h k = cc

module _ (P : Pools) (pool : P.T) (no_sub : Bool) where
  -- What the loop finds: an entry for the text itself, or one for a parent.
  pub data Match (full : Bool) (p : List ℕ) : Type 0 where
    here :
        (flags : ℕ)
        → P.find pool p ≡ some flags
        → entry_hit P full (some flags) ≡ true
        → Match full p
    parent :
        (pre name : List ℕ) (flags : ℕ)
        → no_sub ≡ false
        → p ≡ pre ++ (b'.' ∷ name)
        → P.find pool name ≡ some flags
        → is_strict flags ≡ false
        → Match full p

  entry_hit-here :
      (full : Bool) (p : List ℕ) → entry_hit P full (P.find pool p) ≡ true → Match full p
  unfolding entry_hit
  entry_hit-here full p h = elim (Option-cases (P.find pool p)) [
    | inl e ↦ absurd (true_not_false (entry_hit P full (P.find pool p)) h (rw e refl))
    | inr (flags, e) ↦ here flags e (ap (entry_hit P full) (sym e) ∙ h)
  ]

  not_strict : (flags : ℕ) → entry_hit P false (some flags) ≡ true → is_strict flags ≡ false
  unfolding entry_hit
  not_strict flags h = ground arith

  strict_hit : (flags : ℕ) → is_strict flags ≡ false → entry_hit P false (some flags) ≡ true
  unfolding entry_hit
  strict_hit flags h = ground arith

  climb :
      (full : Bool) (p : List ℕ) (d : Dot p) → no_sub ≡ false → Match false d.rest → Match full p
  climb full p d n (here flags e h) = parent d.pre d.rest flags n d.split e (not_strict flags h)
  climb full p d n (parent pre name flags _ s e h) =
      parent (d.pre ++ (b'.' ∷ pre)) name flags n
        (d.split
          ∙ ap (λ (x : List ℕ). d.pre ++ (b'.' ∷ x)) s
          ∙ sym (append_assoc d.pre (b'.' ∷ pre) (b'.' ∷ name)))
        e h

  -- The ways of one turn of the loop that do not entry_hit.
  loop_hit :
      (k : ℕ) (p : List ℕ) (full : Bool)
      → entry_hit P full (P.find pool p) ≡ true
      → search_loop P (suc k) pool p no_sub full ≡ true
  unfolding search_loop
  loop_hit k p full e = rw e refl

  module _ (k : ℕ) (p : List ℕ) (full : Bool) (e : entry_hit P full (P.find pool p) ≡ false) where
    loop_stop : no_sub ≡ true → search_loop P (suc k) pool p no_sub full ≡ false
    unfolding search_loop
    loop_stop n = rw (e, n) refl

    loop_end :
        strchr b'.' p ≡ none → no_sub ≡ false → search_loop P (suc k) pool p no_sub full ≡ false
    unfolding search_loop after_dot
    loop_end d n = rw (e, d, n) refl

    loop_next :
        (rest : List ℕ)
        → strchr b'.' p ≡ some (b'.' ∷ rest)
        → no_sub ≡ false
        → search_loop P (suc k) pool p no_sub full ≡ search_loop P k pool rest no_sub false
    unfolding search_loop after_dot
    loop_next rest d n = rw (e, d, n) refl

  pub search_loop-Match :
      (k : ℕ) (p : List ℕ) (full : Bool) → search_loop P k pool p no_sub full ≡ true → Match full p
  unfolding search_loop
  search_loop-Match zero p full h = cc
  search_loop-Match (suc k) p full h = elim (Bool-cases (entry_hit P full (P.find pool p))) [
    | inl e ↦ entry_hit-here full p e
    | inr e ↦ elim (Bool-cases no_sub) [
      | inl n ↦
          absurd
            (true_not_false (search_loop P (suc k) pool p no_sub full) h (loop_stop k p full e n))
      | inr n ↦ elim (Dot-cases p) [
        | inl d ↦
            absurd (
              true_not_false (search_loop P (suc k) pool p no_sub full) h (loop_end k p full e d n))
        | inr d ↦
            climb full p d n
              (search_loop-Match k d.rest false (sym (loop_next k p full e d.rest d.found n) ∙ h))
      ]
    ]
  ]

  pub Match-search_loop :
      (k : ℕ) (p : List ℕ) (full : Bool)
      → length p < k
      → Match full p
      → search_loop P k pool p no_sub full ≡ true
  Match-search_loop zero p full lt m = absurd (omega arith)
  Match-search_loop (suc k) p full lt (here flags e h) =
      loop_hit k p full (ap (entry_hit P full) e ∙ h)
  Match-search_loop (suc k) p full lt (parent pre name flags n s e h) =
      elim (Bool-cases (entry_hit P full (P.find pool p))) [
        | inl m ↦ loop_hit k p full m
        | inr m ↦
            let f = FirstDot-at pre name in
            let found : strchr b'.' p ≡ some (b'.' ∷ f.rest) = ap (strchr b'.') s ∙ f.found in
            let shorter : length f.rest < k =
              omega (arith, lt, f.shorter, ap (λ (x : List ℕ). length x) s) in
            loop_next k p full m f.rest found n
            ∙ Match-search_loop k f.rest false shorter (rest_Match f.rest f.left)
      ]
    where
      rest_Match :
          (rest : List ℕ)
          → (rest ≡ name) ⊎ ((q : List ℕ) × (rest ≡ q ++ (b'.' ∷ name)))
          → Match false rest
      rest_Match rest (inl r) = here flags (ap (P.find pool) r ∙ e) (strict_hit flags h)
      rest_Match rest (inr (q, r)) = parent q name flags n r e h
