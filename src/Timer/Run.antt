-- ===== src/Timer/Run.antt =====
-- nfq2/timer.c: a run of timers whose functions leave the timers alone.
use prizma.Base.{
  ◌≡◌, ◌≤◌, refl, ap, sym, ◌∙◌, ℕ, suc, ◌+◌, ◌^◌, true, false, not, ◌||◌, some, List, [], ◌∷◌, ◌++◌,
  leb, ◌==◌, if◌then◌else◌, wrap32, wrap64, arith, Bool-cases, inl, inr,
}
use prizma.Timer.{
  Timer, Timers, Lua, lower, min_next, timer_pool_next, latest_time, is_nil, Pass, Ran, acts, due,
  timer_next, Next, keep, drop, restart, pass, run_again, timer_pool_run,
}

min_next-snoc :
    (m : ℕ) (d : List Timer) (e : Timer) → min_next m (d ++ (e ∷ [])) ≡ lower (min_next m d) e
unfolding min_next
min_next-snoc m [] e = refl
min_next-snoc m (x ∷ d) e = min_next-snoc (lower m x) d e

-- Every timer waits for a time after `bt`.
abbrev pub AllAfter : ℕ → List Timer → Type 0
AllAfter bt [] = Unit
AllAfter bt (e ∷ es) = (suc bt ≤ e.bt_next) × AllAfter bt es

AllAfter-snoc :
    (bt : ℕ) (d : List Timer) (e : Timer)
    → AllAfter bt d
    → suc bt ≤ e.bt_next
    → AllAfter bt (d ++ (e ∷ []))
AllAfter-snoc bt [] e a h = (h, tt)
AllAfter-snoc bt (x ∷ d) e a h = (a.0, AllAfter-snoc bt d e a.1 h)

-- A period is not zero, and its end does not wrap.
abbrev pub AllPeriods : ℕ → List Timer → Type 0
AllPeriods bt [] = Unit
AllPeriods bt (e ∷ es) = (1 ≤ e.period) × (suc (bt + e.period) ≤ 2 ^ 64) × AllPeriods bt es

nil_next : (p : List Timer) → is_nil p ≡ true → timer_pool_next p ≡ 0
unfolding timer_pool_next is_nil
nil_next [] e = refl
nil_next (x ∷ p) e = cc

nil-AllAfter : (bt : ℕ) (p : List Timer) → is_nil p ≡ true → AllAfter bt p
unfolding is_nil
nil-AllAfter bt [] e = tt
nil-AllAfter bt (x ∷ p) e = cc

module _ (L : Lua) where
  -- The functions make and delete no timer.
  abbrev pub IsQuiet : Type 0
  IsQuiet = (w : L.W) (e : Timer) → L.script w e ≡ []

  abbrev Kept : ℕ → Next L → Type 0
  Kept bt (keep e w) = suc bt ≤ e.bt_next
  Kept bt (drop w) = Unit
  Kept bt (restart t w) = ⊥

  timer_next-Kept :
      (bt : ℕ) (w : L.W) (n : ℕ) (done : List Timer) (e : Timer) (es : List Timer)
      → IsQuiet
      → 1 ≤ e.period
      → suc (bt + e.period) ≤ 2 ^ 64
      → Kept bt (timer_next L bt w n done e es)
  unfolding timer_next due acts
  timer_next-Kept bt w n done e es q p r =
      let f = record e { fires = wrap32 (suc e.fires) } in
      let over = not (L.result w f) || e.oneshot in
      let ends : suc bt ≤ wrap64 (bt + e.period) = omega arith in
      elim (Bool-cases (leb e.bt_next bt)) [
        | inr a ↦ rw a (ground arith)
        | inl a ↦ elim (Bool-cases (L.strdup w e)) [
          | inl b ↦ elim (Bool-cases over) [
            | inl c ↦ rw (a, b, q w f, c) tt
            | inr c ↦ rw (a, b, q w f, c) ends
          ]
          | inr b ↦ elim (Bool-cases e.oneshot) [
            | inl c ↦ rw (a, b, c) tt
            | inr c ↦ rw (a, b, c) ends
          ]
        ]
      ]

  record Swept (bt : ℕ) (r : Pass L) : Type 0 where
    once : r.again ≡ false
    least : r.mintime ≡ min_next latest_time r.timers.pool
    waits : AllAfter bt r.timers.pool

  pass_after : ℕ → ℕ → List Timer → List Timer → ℕ → Next L → Pass L
  pass_after bt n done es m r = elim r [
    | keep e w ↦ pass L bt w n (done ++ (e ∷ [])) es (lower m e)
    | drop w ↦ pass L bt w n done es m
    | restart t w ↦ record { again = true; timers = t; world = w; mintime = m }
  ]

  pass_after-Swept :
      (bt n : ℕ) (done es : List Timer) (m : ℕ) (r : Next L)
      → Kept bt r
      → AllAfter bt done
      → m ≡ min_next latest_time done
      → ((w : L.W) (d : List Timer) (k : ℕ)
          → AllAfter bt d
          → k ≡ min_next latest_time d
          → Swept bt (pass L bt w n d es k))
      → Swept bt (pass_after bt n done es m r)
  unfolding pass_after
  pass_after-Swept bt n done es m (keep e w) k a least rest =
      rest w (done ++ (e ∷ [])) (lower m e) (AllAfter-snoc bt done e a k)
        (ap (λ x. lower x e) least ∙ sym (min_next-snoc latest_time done e))
  pass_after-Swept bt n done es m (drop w) k a least rest = rest w done m a least
  pass_after-Swept bt n done es m (restart t w) k a least rest = absurd k

  pass-Swept :
      (bt : ℕ) (w : L.W) (n : ℕ) (done es : List Timer) (m : ℕ)
      → IsQuiet
      → AllPeriods bt es
      → AllAfter bt done
      → m ≡ min_next latest_time done
      → Swept bt (pass L bt w n done es m)
  unfolding pass pass_after
  pass-Swept bt w n done [] m q p a e = record { once = refl; least = e; waits = a }
  pass-Swept bt w n done (x ∷ es) m q p a e =
      pass_after-Swept bt n done es m (timer_next L bt w n done x es)
        (timer_next-Kept bt w n done x es q p.0 p.1) a e
        (λ v d k b f. pass-Swept bt v n d es k q p.2 b f)

  next_time :
      (p : List Timer) → (if is_nil p then 0 else min_next latest_time p) ≡ timer_pool_next p
  unfolding is_nil timer_pool_next
  next_time [] = refl
  next_time (e ∷ p) = refl

  run_again-once :
      (k bt : ℕ) (w : L.W) (t : Timers)
      → Swept bt (pass L bt w t.timer_n [] t.pool latest_time)
      → (r : Ran L) × (run_again L (suc k) bt w t ≡ some r)
        × (r.mintime ≡ timer_pool_next r.timers.pool)
        × AllAfter bt r.timers.pool
  unfolding run_again
  run_again-once k bt w t s =
      let p = pass L bt w t.timer_n [] t.pool latest_time in
      let least : (if is_nil p.timers.pool then 0 else p.mintime) ≡ timer_pool_next p.timers.pool =
        ap (λ x. if is_nil p.timers.pool then 0 else x) s.least ∙ next_time p.timers.pool in
      (
        record {
          timers = p.timers;
          world = p.world;
          mintime = if is_nil p.timers.pool then 0 else p.mintime;
        },
        rw (s.once, run_again) refl,
        least,
        s.waits,
      )

  -- Where the functions of timers make and delete none, where the time is not 0, and where no period is 0
  -- and no end of one wraps, a run goes through the timers once: it ends, what it returns is the time of
  -- the next run, and every timer that is left waits for a time after this one.
  pub timer_pool_run-once :
      (k now bt : ℕ) (w : L.W) (t : Timers)
      → IsQuiet
      → 1 ≤ bt
      → AllPeriods bt t.pool
      → (r : Ran L) × (timer_pool_run L (suc k) now bt w t ≡ some r)
        × (r.mintime ≡ timer_pool_next r.timers.pool)
        × AllAfter bt r.timers.pool
  unfolding timer_pool_run min_next
  timer_pool_run-once k now bt w t q one p = elim (Bool-cases (is_nil t.pool)) [
    | inl e ↦ (
      record { timers = record t { dirty = false }; world = w; mintime = 0 },
      rw e refl,
      sym (nil_next t.pool e),
      nil-AllAfter bt t.pool e,
    )
    | inr e ↦
        let given : (bt == 0) ≡ false = ground arith in
        let (r, f, g, h) =
          run_again-once k bt w t (pass-Swept bt w t.timer_n [] t.pool latest_time q p tt refl) in
        (r, rw (e, given) f, g, h)
  ]
