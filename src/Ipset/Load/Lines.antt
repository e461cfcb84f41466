-- ===== src/Ipset/Load/Lines.antt =====
-- nfq2/ipset.c: the loop over the lines of an unzipped list.
use prizma.Base.{
  ℕ, zero, suc, ◌≤◌, ◌≡◌, refl, Bool, true, false, some, List, [], ◌∷◌, length, take, arith,
  Bool-cases, inl, inr,
}
use prizma.Hostlist.Walk.{true_not_false}
use prizma.Hostlist.Load.{System, is_host_end, has_host, skip_blank}
use prizma.Hostlist.Load.Lines.{
  skip, length-skip_blank, length-skip, skip-passes, has_host-nil, skip-nil,
}
use prizma.Ipset.{Trees, Ipset}
use prizma.Ipset.Load.{Pton, take_token, add_cidr, addpool, add_all}

length-take_token : (s : List ℕ) → length (take_token s).rest ≤ length s
unfolding take_token
length-take_token [] = omega arith
length-take_token (c ∷ s) = elim (Bool-cases (is_host_end c)) [
  | inl e ↦ rw (e, take_token) (omega arith)
  | inr e ↦ rw (e, take_token) (omega (arith, length-take_token s))
]

take_token-passes : (c : ℕ) (s : List ℕ) → length (skip (take_token (c ∷ s)).rest) ≤ length s
unfolding take_token
take_token-passes c s = elim (Bool-cases (is_host_end c)) [
  | inl e ↦ rw (e, take_token) (skip-passes c s)
  | inr e ↦ rw (e, take_token) (omega (arith, length-skip (take_token s).rest, length-take_token s))
]

module _ (K : Trees) (sys : System) (pton : Pton) where
  line-passes :
      (ips : Ipset K) (c : ℕ) (s t : List ℕ)
      → skip_blank (c ∷ s) ≡ t
      → length t ≤ suc (length s)
      → (addpool K sys pton ips (c ∷ s)).result ≡ true
      → length (addpool K sys pton ips (c ∷ s)).rest ≤ length s
  unfolding addpool
  line-passes ips c s [] e le r = rw (e, has_host-nil, skip-nil) (omega arith)
  line-passes ips c s (d ∷ t) e le r = elim (Bool-cases (has_host (d ∷ t))) [
    | inr k ↦ rw (e, k) (omega (arith, skip-passes d t))
    | inl k ↦
        let added = add_cidr K sys pton ips (take 127 (take_token (d ∷ t)).token) in
        elim (Bool-cases added.0) [
          | inl a ↦ rw (e, k, a) (omega (arith, take_token-passes d t))
          | inr a ↦
              let refused : (addpool K sys pton ips (c ∷ s)).result ≡ false = rw (e, k, a) refl in
              absurd (true_not_false (addpool K sys pton ips (c ∷ s)).result r refused)
        ]
  ]

  -- The loop over a buffer ends: as much fuel as the buffer has bytes is enough.
  pub add_all-ends :
      (k : ℕ) (ips : Ipset K) (s : List ℕ)
      → length s ≤ k
      → (r : Bool × Ipset K) × (add_all K sys pton k ips s ≡ some r)
  unfolding add_all
  add_all-ends k ips [] le = ((true, ips), refl)
  add_all-ends zero ips (c ∷ s) le = absurd (omega arith)
  add_all-ends (suc k) ips (c ∷ s) le =
      let a = addpool K sys pton ips (c ∷ s) in
      elim (Bool-cases a.result) [
        | inl e ↦
            let shorter =
              line-passes ips c s (skip_blank (c ∷ s)) refl (length-skip_blank (c ∷ s)) e in
            let (r, f) = add_all-ends k a.ipset a.rest (omega (arith, shorter)) in (r, rw e f)
        | inr e ↦ ((false, a.ipset), rw e refl)
      ]
