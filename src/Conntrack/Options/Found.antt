-- ===== src/Conntrack/Options/Found.antt =====
-- nfq2/darkmagic.c: what `tcp_find_option` returns.
use mathlib.Core.List.{append_assoc}
use mathlib.Core.Path.{subst}
use prizma.Base.{
  ℕ, zero, suc, ◌+◌, ◌≤◌, ◌<◌, ◌≡◌, ◌∙◌, ap, sym, refl, inl, inr, Bool, true, false, ◌||◌, Option,
  none, some, List, [], ◌∷◌, ◌++◌, ltb, ◌==◌, if◌then◌else◌, length, take, drop, byte_at,
  length-drop, take-append-drop, Bool-cases, arith,
}
use prizma.Conntrack.Options.{Tcp, find_option, tcp_find_option}

-- `t` is the end of `options`, from an option of the kind on that fits.
pub record IsOption (options : List ℕ) (kind : ℕ) (t : List ℕ) : Type 0 where
  pub before : List ℕ
  pub split : options ≡ before ++ t
  pub kind_at : byte_at t 0 ≡ kind
  pub least : 2 ≤ byte_at t 1
  pub fits : byte_at t 1 ≤ length t

-- What a search may give.
abbrev pub Finds : List ℕ → ℕ → Option (List ℕ) → Type 0
Finds options kind none = Unit
Finds options kind (some t) = IsOption options kind t

Finds-prefix :
    (pre options : List ℕ) (kind : ℕ) (r : Option (List ℕ))
    → Finds options kind r
    → Finds (pre ++ options) kind r
Finds-prefix pre options kind none f = tt
Finds-prefix pre options kind (some t) f = record {
  before = pre ++ f.before;
  split = ap (λ (x : List ℕ). pre ++ x) f.split ∙ sym (append_assoc pre f.before t);
  kind_at = f.kind_at;
  least = f.least;
  fits = f.fits;
}

Finds-if :
    (options : List ℕ) (kind : ℕ) (b : Bool) (x y : Option (List ℕ))
    → (b ≡ true → Finds options kind x)
    → (b ≡ false → Finds options kind y)
    → Finds options kind (if b then x else y)
Finds-if options kind true x y f g = f refl
Finds-if options kind false x y f g = g refl

find_option-Finds : (fuel : ℕ) (t : List ℕ) (kind : ℕ) → Finds t kind (find_option fuel t kind)
unfolding find_option
find_option-Finds zero t kind = tt
find_option-Finds (suc fuel) [] kind = tt
find_option-Finds (suc fuel) (k ∷ t) kind =
    let n = byte_at t 0 in
    Finds-if (k ∷ t) kind (k == 0) _ _ (λ _. tt)
      λ _.
        Finds-if (k ∷ t) kind (k == 1) _ _
          (λ _. Finds-prefix (k ∷ []) t kind _ (find_option-Finds fuel t kind))
          λ _.
            Finds-if (k ∷ t) kind (length t == 0 || ltb n 2 || ltb (length (k ∷ t)) n) _ _ (λ _. tt)
              λ ok_length.
                Finds-if (k ∷ t) kind (k == kind) _ _
                  (λ same. record {
                    before = [];
                    split = refl;
                    kind_at = ground arith;
                    least = ground arith;
                    fits = ground arith;
                  })
                  (λ _.
                    subst (λ x. Finds x kind (find_option fuel (drop n (k ∷ t)) kind))
                      (take-append-drop n (k ∷ t))
                      (Finds-prefix (take n (k ∷ t)) (drop n (k ∷ t)) kind _
                        (find_option-Finds fuel (drop n (k ∷ t)) kind)))

find_option-fuel :
    (f g : ℕ) (t : List ℕ) (kind : ℕ)
    → length t < f
    → length t < g
    → find_option f t kind ≡ find_option g t kind
unfolding find_option
find_option-fuel zero g t kind lf lg = absurd (omega arith)
find_option-fuel (suc f) zero t kind lf lg = absurd (omega arith)
find_option-fuel (suc f) (suc g) [] kind lf lg = refl
find_option-fuel (suc f) (suc g) (k ∷ t) kind lf lg =
    let n = byte_at t 0 in
    let next = find_option-fuel f g t kind (omega arith) (omega arith) in
    elim (Bool-cases (length t == 0 || ltb n 2 || ltb (length (k ∷ t)) n)) [
      | inl bad ↦ rw (bad, next) refl
      | inr good ↦
          let size = length-drop n (k ∷ t) in
          let two : 2 ≤ n = ground arith in
          rw (good, next, find_option-fuel f g (drop n (k ∷ t)) kind (omega arith) (omega arith))
            refl
    ]

-- The search for an option of a TCP header ends, any fuel above the number of option bytes gives the
-- same, and when it finds an option, that stands among the options, is of the kind, and has a length
-- of at least 2 that does not go past their end.
pub tcp_find_option-Finds :
    (tcp : Tcp) (kind fuel : ℕ)
    → length tcp.options < fuel
    → (tcp_find_option tcp kind ≡ find_option fuel tcp.options kind)
      × Finds tcp.options kind (tcp_find_option tcp kind)
unfolding tcp_find_option
tcp_find_option-Finds tcp kind fuel lt = (
  find_option-fuel (length tcp.options + 1) fuel tcp.options kind (omega arith) lt,
  find_option-Finds (length tcp.options + 1) tcp.options kind,
)
