-- ===== src/Hostlist/Load/Written.antt =====
-- nfq2/hostlist.c: the text of a list that is read from a file.
use mathlib.Core.Path.{subst}
use prizma.Base.{
  ℕ, zero, suc, ◌≤◌, ◌≡◌, ◌≢◌, ◌∙◌, ap, sym, refl, Bool, true, false, not, ◌||◌, none, some, List,
  [], ◌∷◌, ◌++◌, ◌==◌, if◌then◌else◌, length, arith, Option-cases, inl, inr,
}
use prizma.Tls.{tolower}
use prizma.Hostlist.{Pools, hostlist_pool_add_str_len, hostlist_pool_add_str_len-entry}
use prizma.Hostlist.Load.{
  System, Host, Marked, is_gap, is_eol, is_comment, is_host_end, skip_blank, take_host, skip_line,
  skip_eols, strict_mark, has_host, addpool, add_all,
}

-- A line of a list: a host name, and whether it is for that name alone.
pub record Line : Type 0 where
  pub strict : Bool
  pub host : List ℕ

abbrev pub lower : List ℕ → List ℕ
lower [] = []
lower (c ∷ s) = tolower c ∷ lower s

abbrev pub marked : Bool → List ℕ → List ℕ
marked strict s = if strict then b'^' ∷ s else s

-- The text of a list, a line after the other.
abbrev pub text : List Line → List ℕ
text [] = []
text (l ∷ ls) = marked l.strict (l.host ++ (b'\n' ∷ text ls))

-- No blank, line end or zero is in a host name.
abbrev pub AllPlain : List ℕ → Type 0
AllPlain [] = Unit
AllPlain (c ∷ s) = (is_host_end c ≡ false) × AllPlain s

-- What a line begins with is neither the sign of a comment nor the mark.
abbrev pub Begins : Bool → List ℕ → Type 0
Begins true s = Unit
Begins false [] = ⊥
Begins false (c ∷ s) = (is_comment c ≡ false) × ((c == b'^') ≡ false)

abbrev pub IsLine : Line → Type 0
IsLine l = AllPlain l.host × Begins l.strict l.host

abbrev pub AllLines : List Line → Type 0
AllLines [] = Unit
AllLines (l ∷ ls) = IsLine l × AllLines ls

take_host-plain :
    (h s : List ℕ)
    → AllPlain h
    → take_host (h ++ (b'\n' ∷ s)) ≡ record { host = lower h; rest = b'\n' ∷ s }
unfolding take_host is_host_end is_gap is_eol
take_host-plain [] s a = refl
take_host-plain (c ∷ h) s a = rw (a.0, take_host, take_host-plain h s a.1) refl

plain_not_gap : (c : ℕ) → is_host_end c ≡ false → is_gap c ≡ false
unfolding is_host_end is_gap is_eol
plain_not_gap c h = ground arith

plain_not_end : (c : ℕ) → is_host_end c ≡ false → (c == 0 || is_eol c) ≡ false
unfolding is_host_end is_gap is_eol
plain_not_end c h = ground arith

skip_blank-stays : (c : ℕ) (s : List ℕ) → is_gap c ≡ false → skip_blank (c ∷ s) ≡ c ∷ s
unfolding skip_blank
skip_blank-stays c s h = rw (h, skip_blank) refl

skip_eols-stays : (c : ℕ) (s : List ℕ) → (c == 0 || is_eol c) ≡ false → skip_eols (c ∷ s) ≡ c ∷ s
unfolding skip_eols
skip_eols-stays c s h = rw (h, skip_eols) refl

-- The next line begins at once.
skip_eols-text : (ls : List Line) → AllLines ls → skip_eols (text ls) ≡ text ls
unfolding skip_eols is_eol
skip_eols-text [] a = refl
skip_eols-text (l ∷ ls) a = next l.strict l.host a.0
  where
    next :
        (strict : Bool) (h : List ℕ)
        → AllPlain h × Begins strict h
        → skip_eols (marked strict (h ++ (b'\n' ∷ text ls)))
          ≡ marked strict (h ++ (b'\n' ∷ text ls))
    next true h a = refl
    next false [] a = absurd a.1
    next false (c ∷ h) a = skip_eols-stays c (h ++ (b'\n' ∷ text ls)) (plain_not_end c (a.0).0)

newline : (s : List ℕ) → skip_eols (skip_line (b'\n' ∷ s)) ≡ skip_eols s
unfolding skip_line skip_eols is_eol
newline s = refl

flags_of : Bool → ℕ
flags_of strict = if strict then 1 else 0

line-marked :
    (strict : Bool) (h s : List ℕ)
    → AllPlain h
    → Begins strict h
    → strict_mark (marked strict (h ++ s)) ≡ record { text = h ++ s; flags = flags_of strict }
unfolding strict_mark flags_of
line-marked true h s a b = refl
line-marked false [] s a b = absurd b
line-marked false (c ∷ h) s a b = rw b.1 refl

line-has_host :
    (strict : Bool) (h s : List ℕ) → Begins strict h → has_host (marked strict (h ++ s)) ≡ true
unfolding has_host is_comment is_eol
line-has_host true h s b = refl
line-has_host false [] s b = absurd b
line-has_host false (c ∷ h) s b = ap not b.0

line-skip_blank :
    (strict : Bool) (h s : List ℕ)
    → AllPlain h
    → Begins strict h
    → skip_blank (marked strict (h ++ s)) ≡ marked strict (h ++ s)
unfolding skip_blank is_gap
line-skip_blank true h s a b = refl
line-skip_blank false [] s a b = absurd b
line-skip_blank false (c ∷ h) s a b = skip_blank-stays c (h ++ s) (plain_not_gap c a.0)

length-line :
    (strict : Bool) (h t : List ℕ) (n : ℕ)
    → n ≤ length t
    → suc n ≤ length (marked strict (h ++ (b'\n' ∷ t)))
length-line true [] t n le = omega arith
length-line true (c ∷ h) t n le = omega (arith, length-line true h t n le)
length-line false [] t n le = omega arith
length-line false (c ∷ h) t n le = omega (arith, length-line false h t n le)

length-text : (ls : List Line) → length ls ≤ length (text ls)
length-text [] = omega arith
length-text (l ∷ ls) = length-line l.strict l.host (text ls) (length ls) (length-text ls)

module _ (P : Pools) (sys : System) where
  addpool_eq :
      (pool pool' : P.T) (s : List ℕ) (m : Marked) (h : Host)
      → skip_blank s ≡ s
      → strict_mark s ≡ m
      → take_host m.text ≡ h
      → has_host s ≡ true
      → sys.memory h.host ≡ true
      → hostlist_pool_add_str_len P true pool h.host m.flags ≡ (true, pool')
      → addpool P sys pool s
        ≡ record { result = true; pool = pool'; rest = skip_eols (skip_line h.rest) }
  unfolding addpool
  addpool_eq pool pool' s m h a b c d e f = rw (a, b, c, d, e, f, addpool) refl

  -- The entry of a line.
  abbrev pub Entered : P.T → List ℕ → Type 0
  Entered pool h = (v : ℕ) × (P.find pool h ≡ some v)

  add_found :
      (pool : P.T) (s : List ℕ) (flags w : ℕ)
      → P.find pool s ≡ some w
      → hostlist_pool_add_str_len P true pool s flags ≡ (true, pool)
  unfolding hostlist_pool_add_str_len
  add_found pool s flags w e = rw (e, hostlist_pool_add_str_len) refl

  add_new :
      (pool : P.T) (s : List ℕ) (flags : ℕ)
      → P.find pool s ≡ none
      → hostlist_pool_add_str_len P true pool s flags ≡ (true, P.add pool s flags)
  unfolding hostlist_pool_add_str_len
  add_new pool s flags e = rw (e, hostlist_pool_add_str_len) refl

  -- What is found stays as it is when a host is added.
  add-keeps :
      (pool pool' : P.T) (s u : List ℕ) (flags v : ℕ)
      → hostlist_pool_add_str_len P true pool s flags ≡ (true, pool')
      → P.find pool u ≡ some v
      → P.find pool' u ≡ some v
  add-keeps pool pool' s u flags v e f = elim (Option-cases (P.find pool s)) [
    | inr (w, g) ↦
        let same : pool ≡ pool' = ap (λ x. x.1) (sym (add_found pool s flags w g) ∙ e) in
        subst (λ x. P.find x u ≡ some v) same f
    | inl g ↦
        let same : P.add pool s flags ≡ pool' = ap (λ x. x.1) (sym (add_new pool s flags g) ∙ e) in
        let differs : s ≢ u =
          λ q. let found : P.find pool s ≡ some v = ap (P.find pool) q ∙ f in cc in
        subst (λ x. P.find x u ≡ some v) same (P.find-add_other pool s u flags differs ∙ f)
  ]

  record Read (pool : P.T) (l : Line) (ls : List Line) : Type 0 where
    pool' : P.T
    reads :
        addpool P sys pool (text (l ∷ ls)) ≡ record { result = true; pool = pool'; rest = text ls }
    entry : Entered pool' (lower l.host)
    keeps : (u : List ℕ) (v : ℕ) → P.find pool u ≡ some v → P.find pool' u ≡ some v

  line-Read :
      (pool : P.T) (l : Line) (ls : List Line)
      → IsLine l
      → AllLines ls
      → sys.memory (lower l.host) ≡ true
      → Read pool l ls
  line-Read pool l ls a next mem =
      let tail = b'\n' ∷ text ls in
      let (pool', e, entered) =
        hostlist_pool_add_str_len-entry P pool (lower l.host) (flags_of l.strict) in
      record {
        pool' = pool';
        reads =
            addpool_eq pool pool' (marked l.strict (l.host ++ tail))
              (record { text = l.host ++ tail; flags = flags_of l.strict })
              (record { host = lower l.host; rest = tail })
              (line-skip_blank l.strict l.host tail a.0 a.1)
              (line-marked l.strict l.host tail a.0 a.1) (take_host-plain l.host (text ls) a.0)
              (line-has_host l.strict l.host tail a.1) mem e
            ∙ ap (λ (x : List ℕ). record { result = true; pool = pool'; rest = x })
                (newline (text ls) ∙ skip_eols-text ls next);
        entry = entered;
        keeps = λ u v f. add-keeps pool pool' (lower l.host) u (flags_of l.strict) v e f;
      }

  -- There is memory for every host.
  abbrev pub AllFit : List Line → Type 0
  AllFit [] = Unit
  AllFit (l ∷ ls) = (sys.memory (lower l.host) ≡ true) × AllFit ls

  abbrev pub AllEntered : P.T → List Line → Type 0
  AllEntered pool [] = Unit
  AllEntered pool (l ∷ ls) = Entered pool (lower l.host) × AllEntered pool ls

  record Loaded (k : ℕ) (pool : P.T) (ls : List Line) : Type 0 where
    pool' : P.T
    loads : add_all P sys k pool (text ls) ≡ some (true, pool')
    entries : AllEntered pool' ls
    keeps : (u : List ℕ) (v : ℕ) → P.find pool u ≡ some v → P.find pool' u ≡ some v

  add_all-turn :
      (k : ℕ) (pool pool' : P.T) (rest t : List ℕ) (c : ℕ)
      → addpool P sys pool (c ∷ t) ≡ record { result = true; pool = pool'; rest = rest }
      → add_all P sys (suc k) pool (c ∷ t) ≡ add_all P sys k pool' rest
  unfolding add_all
  add_all-turn k pool pool' rest t c r = rw (r, add_all) refl

  add_all-next :
      (k : ℕ) (pool pool' : P.T) (s rest : List ℕ) (c : ℕ) (t : List ℕ)
      → s ≡ c ∷ t
      → addpool P sys pool s ≡ record { result = true; pool = pool'; rest = rest }
      → add_all P sys (suc k) pool s ≡ add_all P sys k pool' rest
  add_all-next k pool pool' s rest c t e r =
      ap (add_all P sys (suc k) pool) e
      ∙ add_all-turn k pool pool' rest t c (ap (addpool P sys pool) (sym e) ∙ r)

  text_cons :
      (strict : Bool) (h s : List ℕ)
      → (c : ℕ) × (t : List ℕ) × (marked strict (h ++ (b'\n' ∷ s)) ≡ c ∷ t)
  text_cons true h s = (b'^', h ++ (b'\n' ∷ s), refl)
  text_cons false [] s = (b'\n', s, refl)
  text_cons false (c ∷ h) s = (c, h ++ (b'\n' ∷ s), refl)

  done : (k : ℕ) (pool : P.T) → add_all P sys k pool [] ≡ some (true, pool)
  unfolding add_all
  done k pool = refl

  load-Loaded :
      (k : ℕ) (pool : P.T) (ls : List Line)
      → length ls ≤ k
      → AllLines ls
      → AllFit ls
      → Loaded k pool ls
  unfolding add_all
  load-Loaded k pool [] le a m = record {
    pool' = pool;
    loads = done k pool;
    entries = tt;
    keeps = λ u v f. f;
  }
  load-Loaded zero pool (l ∷ ls) le a m = absurd (omega arith)
  load-Loaded (suc k) pool (l ∷ ls) le a m =
      let r = line-Read pool l ls a.0 a.1 m.0 in
      let x = load-Loaded k r.pool' ls (omega arith) a.1 m.1 in
      let (c, t, e) = text_cons l.strict l.host (text ls) in
      let (v, f) = r.entry in
      record {
        pool' = x.pool';
        loads = add_all-next k pool r.pool' (text (l ∷ ls)) (text ls) c t e r.reads ∙ x.loads;
        entries = ((v, x.keeps (lower l.host) v f), x.entries);
        keeps = λ u w g. x.keeps u w (r.keeps u w g);
      }

  -- A list that is written as a text, a line for each host name, is read from it whole, where there is
  -- memory: the loop over the text ends without a refusal, and every name, with its letters lowered, is
  -- then found in the pool.
  pub add_all-text :
      (pool : P.T) (ls : List Line)
      → AllLines ls
      → AllFit ls
      → (pool' : P.T) × (add_all P sys (length (text ls)) pool (text ls) ≡ some (true, pool'))
        × AllEntered pool' ls
  add_all-text pool ls a m =
      let x = load-Loaded (length (text ls)) pool ls (length-text ls) a m in
      (x.pool', x.loads, x.entries)
