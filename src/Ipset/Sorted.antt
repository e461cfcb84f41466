-- ===== src/Ipset/Sorted.antt =====
-- A list of elements in the place of the balanced tree, for runs.
use prizma.Hostlist.Walk.{true_not_false}
use prizma.Base.{
  ◌≡◌, ◌<◌, ◌∙◌, ap, sym, refl, arith, Bool, true, false, ◌&&◌, Option, none, some, List, [], ◌∷◌,
  length, ◌==◌, Bool-cases, inl, inr,
}
use prizma.Text.{same_text, same_text_refl}
use prizma.Ipset.{BitElem, Trees}

abbrev pub is_nil : List BitElem → Bool
is_nil [] = true
is_nil (x ∷ t) = false

abbrev pub same_elem : BitElem → BitElem → Bool
same_elem e x = e.bitlen == x.bitlen && same_text e.data' x.data'

abbrev pub equal_elem : BitElem → List BitElem → Option BitElem
equal_elem e [] = none
equal_elem e (x ∷ t) = elim (same_elem e x) [ true ↦ some x | false ↦ equal_elem e t ]

abbrev pub inserted : Option BitElem → List BitElem → BitElem → List BitElem
inserted none t e = e ∷ t
inserted (some v) t e = t

abbrev pub erase_elem : List BitElem → BitElem → List BitElem
erase_elem [] e = []
erase_elem (x ∷ t) e = elim (same_elem e x) [ true ↦ t | false ↦ x ∷ erase_elem t e ]

same_elem_refl : (e : BitElem) → same_elem e e ≡ true
same_elem_refl e =
    let b : (e.bitlen == e.bitlen) ≡ true = ground arith in rw (b, same_text_refl e.data') refl

module _ (x : BitElem) (t : List BitElem) where
  erase_hit : (v : BitElem) → same_elem v x ≡ true → erase_elem (x ∷ t) v ≡ t
  erase_hit v b = rw (b, erase_elem) refl

  erase_miss : (v : BitElem) → same_elem v x ≡ false → erase_elem (x ∷ t) v ≡ x ∷ erase_elem t v
  erase_miss v b = rw (b, erase_elem) refl

  equal_hit : (e : BitElem) → same_elem e x ≡ true → equal_elem e (x ∷ t) ≡ some x
  equal_hit e b = rw (b, equal_elem) refl

  equal_miss : (e : BitElem) → same_elem e x ≡ false → equal_elem e (x ∷ t) ≡ equal_elem e t
  equal_miss e b = rw (b, equal_elem) refl

pub equal_elem-erase :
    (t : List BitElem) (e v : BitElem)
    → equal_elem e t ≡ some v
    → length (erase_elem t v) < length t
equal_elem-erase [] e v h = cc
equal_elem-erase (x ∷ t) e v h = elim (Bool-cases (same_elem v x)) [
  | inl c ↦ omega (arith, ap (λ (l : List BitElem). length l) (erase_hit x t v c))
  | inr c ↦ elim (Bool-cases (same_elem e x)) [
    | inl b ↦
        let found : some x ≡ some v = sym (equal_hit x t e b) ∙ h in
        let same : x ≡ v = cc in
        let hit : same_elem v x ≡ true = ap (λ u. same_elem u x) (sym same) ∙ same_elem_refl x in
        absurd (true_not_false (same_elem v x) hit c)
    | inr b ↦
        let shorter = equal_elem-erase t e v (sym (equal_miss x t e b) ∙ h) in
        omega (arith, shorter, ap (λ (l : List BitElem). length l) (erase_miss x t v c))
  ]
]

abbrev pub element_lists : Trees
element_lists = record {
  T = List BitElem;
  null = [];
  is_null = is_nil;
  size = λ t. length t;
  kavl_find = λ t e. equal_elem e t;
  kavl_insert = λ t e. (equal_elem e t, inserted (equal_elem e t) t e);
  kavl_erase = erase_elem;
  size-erase = equal_elem-erase;
}
