-- ===== src/Hostlist/Table.antt =====
-- A table of texts that is a function, for runs.
use prizma.Base.{
  ℕ, ◌≡◌, ◌≢◌, refl, Bool, true, false, Option, none, some, List, if◌then◌else◌, Bool-cases, inl,
  inr,
}
use prizma.Hostlist.{Pools}
use prizma.Text.{same_text, same_text_refl, same_text→eq}

module _ {V : Type 0} where
  abbrev pub entry : (List ℕ → Option V) → List ℕ → Option V → List ℕ → Option V
  entry t s v u = if same_text s u then v else t u

  pub entry-same : (t : List ℕ → Option V) (s : List ℕ) (v : Option V) → entry t s v s ≡ v
  entry-same t s v = rw (same_text_refl s) refl

  pub entry-other :
      (t : List ℕ → Option V) (s u : List ℕ) (v : Option V) → s ≢ u → entry t s v u ≡ t u
  entry-other t s u v n = elim (Bool-cases (same_text s u)) [
    | inl e ↦ absurd (n (same_text→eq s u e))
    | inr e ↦ rw e refl
  ]

  abbrev pub nothing : List ℕ → Option V
  nothing s = none

-- A null pointer, or a table.
abbrev pub Pointer : Type 0
Pointer = Option (List ℕ → Option ℕ)

abbrev pub table : Pointer → List ℕ → Option ℕ
table none = nothing
table (some t) = t

abbrev pub null_pointer : Pointer → Bool
null_pointer none = true
null_pointer (some t) = false

pub null_pointer-find : (t : Pointer) (s : List ℕ) → null_pointer t ≡ true → table t s ≡ none
null_pointer-find none s e = refl
null_pointer-find (some t) s e = cc

abbrev pub functions : Pools
functions = record {
  T = Pointer;
  null = none;
  is_null = null_pointer;
  find = table;
  add = λ t s v. some (entry (table t) s (some v));
  is_null-null = refl;
  is_null-add = λ t s v. refl;
  find-is_null = null_pointer-find;
  find-add = λ t s v. entry-same (table t) s (some v);
  find-add_other = λ t s u v n. entry-other (table t) s u (some v) n;
}
