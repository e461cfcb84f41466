-- ===== src/Filter/Ports.antt =====
-- nfq2/filter.c: what `pf_parse` accepts and `pf_match` makes of it.
use mathlib.Core.Bool.{xor}
use prizma.Base.{
  ℕ, ◌≤◌, ◌≡◌, ◌∙◌, ap, refl, Bool, true, false, not, ◌&&◌, ◌||◌, Option, none, some, List, [], ◌∷◌,
  ltb, leb, ◌==◌, if◌then◌else◌, arith, Bool-cases, inl, inr,
}
use prizma.Text.{sscanf, unsigned, character, literal}
use prizma.Filter.{
  PortFilter, pf_match, deny_all, pf_single, pf_double, pf_parse_range, pf_parse_sign, is_star,
  pf_parse,
}

-- The ports that a filter is for.
abbrev pub in_range : PortFilter → ℕ → Bool
in_range f port = leb f.from port && leb port f.to

-- The filter of the text `0`.
abbrev pub for_none : PortFilter → Bool
for_none f = f.from == 0 && f.to == 0

pub data Parsed (before : PortFilter) : Bool × PortFilter → Type 0 where
  accepted :
      {f : PortFilter}
      → f.from ≤ f.to
      → f.to ≤ 65535
      → ((port : ℕ)
          → pf_match port f ≡ (not (port == 0) && not (for_none f) && xor (in_range f port) f.neg))
      → Parsed before (true, f)
  refused : {f : PortFilter} → f.from ≡ before.from → f.to ≡ before.to → Parsed before (false, f)

and_assoc : (a b c : Bool) → (a && (b && c)) ≡ (a && b && c)
and_assoc true b c = refl
and_assoc false b c = refl

denied : (z n r : Bool) → (z ≡ true → n ≡ true) → xor (z || r) n ≡ (not z && xor r n)
unfolding xor
denied true n r h = rw (h refl) refl
denied false n r h = refl

zero_neg : (z n : Bool) → z ≡ true → (if z then true else n) ≡ true
zero_neg z n e = rw e refl

deny_all-Parsed : (pf f : PortFilter) → f.from ≤ f.to → f.to ≤ 65535 → Parsed pf (deny_all f)
unfolding deny_all pf_match
deny_all-Parsed pf f h k =
    let neg = if for_none f then true else f.neg in
    accepted h k (λ port.
      ap (λ (b : Bool). not (port == 0) && b)
        (denied (for_none f) neg (in_range f port) (zero_neg (for_none f) f.neg))
      ∙ and_assoc (not (port == 0)) (not (for_none f)) (xor (in_range f port) neg))

-- `g` is the filter with the sign stored.
module _ (pf g : PortFilter) (a : g.from ≡ pf.from) (b : g.to ≡ pf.to) where
  pf_single-Parsed : (single : List ℕ) → Parsed pf (pf_single single g)
  unfolding pf_single
  pf_single-Parsed [] = refused a b
  pf_single-Parsed (v1 ∷ []) = elim (Bool-cases (ltb 65535 v1)) [
    | inl e ↦ rw e (refused a b)
    | inr e ↦
        let le : v1 ≤ 65535 = ground arith in
        rw e (deny_all-Parsed pf (record g { from = v1; to = v1 }) (omega arith) le)
  ]
  pf_single-Parsed (v1 ∷ v2 ∷ s) = refused a b

  pf_double-Parsed : (double single : List ℕ) → Parsed pf (pf_double double single g)
  unfolding pf_double
  pf_double-Parsed [] single = pf_single-Parsed single
  pf_double-Parsed (v1 ∷ []) single = pf_single-Parsed single
  pf_double-Parsed (v1 ∷ v2 ∷ []) single =
      elim (Bool-cases (ltb 65535 v1 || ltb 65535 v2 || ltb v2 v1)) [
        | inl e ↦ rw e (refused a b)
        | inr e ↦
            let le : v1 ≤ v2 = ground arith in
            let top : v2 ≤ 65535 = ground arith in
            rw e (deny_all-Parsed pf (record g { from = v1; to = v2 }) le top)
      ]
  pf_double-Parsed (v1 ∷ v2 ∷ v3 ∷ s) single = pf_single-Parsed single

  pf_parse_range-Parsed : (s : List ℕ) → Parsed pf (pf_parse_range s g)
  unfolding pf_parse_range
  pf_parse_range-Parsed s =
      pf_double-Parsed (sscanf (unsigned ∷ literal b'-' ∷ unsigned ∷ character ∷ []) s)
        (sscanf (unsigned ∷ character ∷ []) s)

pf_parse_sign-Parsed : (s : List ℕ) (pf : PortFilter) → Parsed pf (pf_parse_sign s pf)
unfolding pf_parse_sign
pf_parse_sign-Parsed [] pf = pf_parse_range-Parsed pf (record pf { neg = false }) refl refl []
pf_parse_sign-Parsed (c ∷ s) pf = elim (Bool-cases (c == b'~')) [
  | inl e ↦ rw e (pf_parse_range-Parsed pf (record pf { neg = true }) refl refl s)
  | inr e ↦ rw e (pf_parse_range-Parsed pf (record pf { neg = false }) refl refl (c ∷ s))
]

star-Parsed : (pf : PortFilter) → Parsed pf (true, record { from = 1; to = 0xffff; neg = false })
unfolding pf_match
star-Parsed pf =
    let f : PortFilter = record { from = 1; to = 0xffff; neg = false } in
    accepted {f = f} (omega arith) (omega arith)
      (λ port. and_assoc (not (port == 0)) true (xor (in_range f port) false))

-- `pf_parse` on any text, or none. Where it returns true, the limits of the filter are ports in order, and the
-- filter matches the ports between them, or those outside where it is negated; it matches neither port 0
-- nor, where it is the filter of port 0 alone, any other. Where it returns false, the limits are as they
-- were.
pub pf_parse-Parsed : (s : Option (List ℕ)) (pf : PortFilter) → Parsed pf (pf_parse s pf)
unfolding pf_parse
pf_parse-Parsed none pf = refused refl refl
pf_parse-Parsed (some s) pf = elim (Bool-cases (is_star s)) [
  | inl e ↦ rw e (star-Parsed pf)
  | inr e ↦ rw e (pf_parse_sign-Parsed s pf)
]
