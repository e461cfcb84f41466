-- ===== src/Hostlist/Load/Lines.antt =====
-- nfq2/hostlist.c: the loop over the lines of an unzipped list.
use prizma.Base.{
  ℕ, zero, suc, ◌≤◌, ◌≡◌, refl, Bool, true, false, ◌||◌, some, List, [], ◌∷◌, ◌==◌, length, arith,
  Bool-cases, inl, inr,
}
use prizma.Hostlist.Walk.{true_not_false}
use prizma.Hostlist.{Pools, hostlist_pool_add_str_len}
use prizma.Hostlist.Load.{
  System, is_gap, is_eol, skip_blank, is_host_end, take_host, skip_line, skip_eols, strict_mark,
  is_comment, has_host, addpool, add_all,
}

pub length-skip_blank : (s : List ℕ) → length (skip_blank s) ≤ length s
unfolding skip_blank
length-skip_blank [] = omega arith
length-skip_blank (c ∷ s) = elim (Bool-cases (is_gap c)) [
  | inl e ↦ rw (e, skip_blank) (omega (arith, length-skip_blank s))
  | inr e ↦ rw (e, skip_blank) (omega arith)
]

length-skip_line : (s : List ℕ) → length (skip_line s) ≤ length s
unfolding skip_line
length-skip_line [] = omega arith
length-skip_line (c ∷ s) = elim (Bool-cases (c == 0 || is_eol c)) [
  | inl e ↦ rw (e, skip_line) (omega arith)
  | inr e ↦ rw (e, skip_line) (omega (arith, length-skip_line s))
]

length-skip_eols : (s : List ℕ) → length (skip_eols s) ≤ length s
unfolding skip_eols
length-skip_eols [] = omega arith
length-skip_eols (c ∷ s) = elim (Bool-cases (c == 0 || is_eol c)) [
  | inl e ↦ rw (e, skip_eols) (omega (arith, length-skip_eols s))
  | inr e ↦ rw (e, skip_eols) (omega arith)
]

abbrev pub skip : List ℕ → List ℕ
skip s = skip_eols (skip_line s)

pub length-skip : (s : List ℕ) → length (skip s) ≤ length s
length-skip s = omega (arith, length-skip_eols (skip_line s), length-skip_line s)

-- The end of a line passes one character at least.
pub skip-passes : (c : ℕ) (s : List ℕ) → length (skip (c ∷ s)) ≤ length s
unfolding skip_line skip_eols
skip-passes c s = elim (Bool-cases (c == 0 || is_eol c)) [
  | inl e ↦ rw (e, skip_line) (rw (e, skip_eols) (length-skip_eols s))
  | inr e ↦ rw (e, skip_line) (length-skip s)
]

length-take_host : (s : List ℕ) → length (take_host s).rest ≤ length s
unfolding take_host
length-take_host [] = omega arith
length-take_host (c ∷ s) = elim (Bool-cases (is_host_end c)) [
  | inl e ↦ rw (e, take_host) (omega arith)
  | inr e ↦ rw (e, take_host) (omega (arith, length-take_host s))
]

take_host-passes : (c : ℕ) (s : List ℕ) → length (skip (take_host (c ∷ s)).rest) ≤ length s
unfolding take_host
take_host-passes c s = elim (Bool-cases (is_host_end c)) [
  | inl e ↦ rw (e, take_host) (skip-passes c s)
  | inr e ↦ rw (e, take_host) (omega (arith, length-skip (take_host s).rest, length-take_host s))
]

marked-passes :
    (c : ℕ) (s : List ℕ) → length (skip (take_host (strict_mark (c ∷ s)).text).rest) ≤ length s
unfolding strict_mark
marked-passes c s = elim (Bool-cases (c == b'^')) [
  | inl e ↦ rw e (omega (arith, length-skip (take_host s).rest, length-take_host s))
  | inr e ↦ rw e (take_host-passes c s)
]

pub has_host-nil : has_host [] ≡ false
unfolding has_host
has_host-nil = refl

pub skip-nil : skip [] ≡ []
unfolding skip_line skip_eols
skip-nil = refl

module _ (P : Pools) (sys : System) where
  -- A line that is not refused is shorter than the buffer by one character at least, where the blanks
  -- before it are skipped.
  line-passes :
      (pool : P.T) (c : ℕ) (s t : List ℕ)
      → skip_blank (c ∷ s) ≡ t
      → length t ≤ suc (length s)
      → (addpool P sys pool (c ∷ s)).result ≡ true
      → length (addpool P sys pool (c ∷ s)).rest ≤ length s
  unfolding addpool has_host skip_line skip_eols
  line-passes pool c s [] e le r = rw e (omega arith)
  line-passes pool c s (d ∷ t) e le r = elim (Bool-cases (is_comment d)) [
    | inl k ↦ rw (e, k) (omega (arith, skip-passes d t))
    | inr k ↦
        let m = strict_mark (d ∷ t) in
        let h = (take_host m.text).host in
        let added = hostlist_pool_add_str_len P (sys.memory h) pool h m.flags in
        elim (Bool-cases added.0) [
          | inl a ↦ rw (e, k, a) (omega (arith, marked-passes d t))
          | inr a ↦
              let refused : (addpool P sys pool (c ∷ s)).result ≡ false = rw (e, k, a) refl in
              absurd (true_not_false (addpool P sys pool (c ∷ s)).result r refused)
        ]
  ]

  addpool-passes :
      (pool : P.T) (c : ℕ) (s : List ℕ)
      → (addpool P sys pool (c ∷ s)).result ≡ true
      → length (addpool P sys pool (c ∷ s)).rest ≤ length s
  addpool-passes pool c s r =
      line-passes pool c s (skip_blank (c ∷ s)) refl (length-skip_blank (c ∷ s)) r

  -- The loop over a buffer ends: as much fuel as the buffer has bytes is enough.
  pub add_all-ends :
      (k : ℕ) (pool : P.T) (s : List ℕ)
      → length s ≤ k
      → (r : Bool × P.T) × (add_all P sys k pool s ≡ some r)
  unfolding add_all
  add_all-ends k pool [] le = ((true, pool), refl)
  add_all-ends zero pool (c ∷ s) le = absurd (omega arith)
  add_all-ends (suc k) pool (c ∷ s) le =
      let a = addpool P sys pool (c ∷ s) in
      elim (Bool-cases a.result) [
        | inl e ↦
            let (r, f) = add_all-ends k a.pool a.rest (omega (arith, addpool-passes pool c s e)) in
            (r, rw e f)
        | inr e ↦ ((false, a.pool), rw e refl)
      ]
