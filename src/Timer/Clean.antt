-- ===== src/Timer/Clean.antt =====
-- nfq2/timer.c: the flag `dirty` and the timers.
use prizma.Base.{
  ◌≡◌, refl, ap, sym, ◌∙◌, ℕ, true, false, Option, none, some, List, [], ◌∷◌, inl, inr,
  Option-cases, ◌⊎◌,
}
use prizma.Timer.{
  Timer, Timers, Act, timer_set, timer_del, timer_pool_search, timer_pool_add, if_added, without,
  set_timer, act, acts,
}

if_added-cases :
    (t : Timers) (r : Option (List Timer × ℕ)) → (if_added t r ≡ t) ⊎ ((if_added t r).dirty ≡ true)
unfolding if_added
if_added-cases t none = inl refl
if_added-cases t (some (p, n)) = inr refl

if_added-dirty :
    (t : Timers) (r : Option (List Timer × ℕ)) → t.dirty ≡ true → (if_added t r).dirty ≡ true
unfolding if_added
if_added-dirty t none d = d
if_added-dirty t (some (p, n)) d = refl

act-cases : (t : Timers) (a : Act) → (act t a ≡ t) ⊎ ((act t a).dirty ≡ true)
unfolding act set_timer without
act-cases t (timer_set m) = elim (Option-cases (timer_pool_search t.pool m.str)) [
  | inl e ↦ rw (e, act) (if_added-cases t (timer_pool_add t.pool t.timer_n m))
  | inr (p, e) ↦
      let u = without t p in
      rw (e, act) (inr (if_added-dirty u (timer_pool_add u.pool u.timer_n m) refl))
]
act-cases t (timer_del s) = elim (Option-cases (timer_pool_search t.pool s)) [
  | inl e ↦ rw (e, act) (inl refl)
  | inr (p, e) ↦ rw (e, act) (inr refl)
]

act-dirty : (t : Timers) (a : Act) → t.dirty ≡ true → (act t a).dirty ≡ true
act-dirty t a d = elim (act-cases t a) [ inl e ↦ ap (λ x. x.dirty) e ∙ d | inr e ↦ e ]

acts-dirty : (t : Timers) (as' : List Act) → t.dirty ≡ true → (acts t as').dirty ≡ true
unfolding acts
acts-dirty t [] d = d
acts-dirty t (a ∷ as') d = acts-dirty (act t a) as' (act-dirty t a d)

-- What a script does to timers and leaves the flag as it was leaves all as it was.
acts_clean : (t : Timers) (as' : List Act) → (acts t as').dirty ≡ false → acts t as' ≡ t
unfolding acts
acts_clean t [] d = refl
acts_clean t (a ∷ as') d = elim (act-cases t a) [
  | inl e ↦ ap (λ x. acts x as') e ∙ acts_clean t as' (ap (λ x. (acts x as').dirty) (sym e) ∙ d)
  | inr e ↦ let f = acts-dirty (act t a) as' e in cc
]
