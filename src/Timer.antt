-- ===== src/Timer.antt =====
-- nfq2/timer.c: the timers and their run, and the two functions of nfq2/lua.c by which a script sets and
-- deletes them. The pool is the list that HASH_ITER of uthash goes through: in the order of insertion. The
-- references into Lua are left out.
pub mod Run
pub mod Clean
mod Tests
use prizma.Base.{
  ◌≡◌, refl, ℕ, zero, suc, ◌+◌, ◌-◌, ◌^◌, Bool, true, false, not, ◌||◌, Option, none, some, List,
  [], ◌∷◌, ◌++◌, ltb, leb, ◌==◌, if◌then◌else◌, wrap32, wrap64,
}
use prizma.Text.{same_text}

-- `addr` is where the element stands in memory.
pub record Timer : Type 0 where
  pub str : List ℕ
  pub period : ℕ
  pub oneshot : Bool
  pub bt_next : ℕ
  pub n : ℕ
  pub fires : ℕ
  pub addr : ℕ

-- The pool, the counter `timer_n`, and the flag that tells that timers were made or deleted.
pub record Timers : Type 0 where
  pub pool : List Timer
  pub timer_n : ℕ
  pub dirty : Bool

-- What a timer is made of: `place` is what malloc gives, `now` the clock.
pub record Make : Type 0 where
  pub str : List ℕ
  pub period : ℕ
  pub oneshot : Bool
  pub place : Option ℕ
  pub now : ℕ

pub timer_pool_search : List Timer → List ℕ → Option Timer
timer_pool_search [] s = none
timer_pool_search (e ∷ es) s =
    let r = timer_pool_search es s in if same_text e.str s then some e else r

pub timer_pool_del : List Timer → ℕ → List Timer
timer_pool_del [] addr = []
timer_pool_del (e ∷ es) addr =
    let rest = timer_pool_del es addr in if e.addr == addr then rest else e ∷ rest

destroy_all : List Timer → List Timer → List Timer
destroy_all pool [] = pool
destroy_all pool (e ∷ es) = destroy_all (timer_pool_del pool e.addr) es

timer_pool_destroy : List Timer → List Timer
timer_pool_destroy pool = destroy_all pool pool

made : Make → ℕ → ℕ → Timer
made m n addr = record {
  str = m.str;
  period = m.period;
  oneshot = m.oneshot;
  bt_next = wrap64 (m.now + m.period);
  n = n;
  fires = 0;
  addr = addr;
}

-- The pool and the counter, or nothing without memory.
timer_pool_add : List Timer → ℕ → Make → Option (List Timer × ℕ)
timer_pool_add pool timer_n m = elim m.place [
  | none ↦ none
  | some addr ↦ (let n = wrap32 (suc timer_n) in some (pool ++ (made m n addr ∷ []), n))
]

-- What a script does to the timers.
pub data Act : Type 0 where
  timer_set : Make → Act
  timer_del : List ℕ → Act

if_added : Timers → Option (List Timer × ℕ) → Timers
if_added t none = t
if_added t (some (pool, n)) = record { pool = pool; timer_n = n; dirty = true }

without : Timers → Timer → Timers
without t e = record t { pool = timer_pool_del t.pool e.addr; dirty = true }

set_timer : Timers → Make → Timers
set_timer t m = if_added t (timer_pool_add t.pool t.timer_n m)

pub act : Timers → Act → Timers
act t (timer_set m) = elim (timer_pool_search t.pool m.str) [
  | none ↦ set_timer t m
  | some e ↦ set_timer (without t e) m
]
act t (timer_del s) = elim (timer_pool_search t.pool s) [ none ↦ t | some e ↦ without t e ]

pub acts : Timers → List Act → Timers
acts t [] = t
acts t (a ∷ as') = acts (act t a) as'

-- The Lua state as the function of a timer finds and leaves it.
pub record Lua : Type 1 where
  pub W : Type 0
  pub strdup : W → Timer → Bool
  pub result : W → Timer → Bool
  pub script : W → Timer → List Act
  pub after : W → Timer → W

pub is_nil : List Timer → Bool
is_nil [] = true
is_nil (e ∷ es) = false

abbrev fire_counted : Timer → Timer
fire_counted e = record e { fires = wrap32 (suc e.fires) }

abbrev put_later : ℕ → Timer → Timer
put_later bt e = record e { bt_next = wrap64 (bt + e.period) }

-- `mintime` before any timer is seen.
abbrev pub latest_time : ℕ
latest_time = 2 ^ 63 - 1

pub lower : ℕ → Timer → ℕ
lower mintime e = if ltb e.bt_next mintime then e.bt_next else mintime

pub min_next : ℕ → List Timer → ℕ
min_next mintime [] = mintime
min_next mintime (e ∷ es) = min_next (lower mintime e) es

-- The time of the next run; 0 when there is no timer.
pub timer_pool_next : List Timer → ℕ
timer_pool_next [] = 0
timer_pool_next (e ∷ es) = min_next latest_time (e ∷ es)

put_off : ℕ → ℕ → List Timer → List Timer
put_off bt addr [] = []
put_off bt addr (e ∷ es) =
    let rest = put_off bt addr es in if e.addr == addr then put_later bt e ∷ rest else e ∷ rest

-- After the function of a timer that made or deleted timers: the timer is looked for, and is another one
-- when its place or its number is.
settle : ℕ → Bool → Timers → Timer → Timers
settle bt ok t e = elim (timer_pool_search t.pool e.str) [
  | none ↦ t
  | some p ↦
      if not (p.addr == e.addr) || not (p.n == e.n)
      then t
      else if not ok || e.oneshot
      then record t { pool = timer_pool_del t.pool e.addr }
      else record t { pool = put_off bt e.addr t.pool }
]

module _ (L : Lua) where
  -- What becomes of a timer: it is kept as it is then, it is deleted, or all are gone through again.
  data Next : Type 0 where
    keep : Timer → L.W → Next
    drop : L.W → Next
    restart : Timers → L.W → Next

  -- A timer whose time has come; `done` and `es` are the timers before and after it.
  due : ℕ → L.W → ℕ → List Timer → Timer → List Timer → Next
  due bt w n done e es =
      if L.strdup w e
      then (let t =
            acts (record { pool = done ++ (fire_counted e ∷ es); timer_n = n; dirty = false })
              (L.script w (fire_counted e)) in
          let ok = L.result w (fire_counted e) in
          let w' = L.after w (fire_counted e) in
          if t.dirty
          then restart (settle bt ok t e) w'
          else if not ok || e.oneshot
          then drop w'
          else keep (put_later bt (fire_counted e)) w')
      else if e.oneshot
      then drop w
      else keep (put_later bt e) w

  timer_next : ℕ → L.W → ℕ → List Timer → Timer → List Timer → Next
  timer_next bt w n done e es = if leb e.bt_next bt then due bt w n done e es else keep e w

  -- `again` tells that the loop is left for `again:`.
  pub record Pass : Type 0 where
    pub again : Bool
    pub timers : Timers
    pub world : L.W
    pub mintime : ℕ

  pub pass : ℕ → L.W → ℕ → List Timer → List Timer → ℕ → Pass
  pass bt w n done [] mintime = record {
    again = false;
    timers = record { pool = done; timer_n = n; dirty = false };
    world = w;
    mintime = mintime;
  }
  pass bt w n done (e ∷ es) mintime = elim (timer_next bt w n done e es) [
    | keep e' w' ↦ pass bt w' n (done ++ (e' ∷ [])) es (lower mintime e')
    | drop w' ↦ pass bt w' n done es mintime
    | restart t w' ↦ record { again = true; timers = t; world = w'; mintime = mintime }
  ]

  pub record Ran : Type 0 where
    pub timers : Timers
    pub world : L.W
    pub mintime : ℕ

  -- From `again:` on, as often as fuel allows.
  pub run_again : ℕ → ℕ → L.W → Timers → Option Ran
  run_again zero bt w t = none
  run_again (suc k) bt w t =
      let p = pass bt w t.timer_n [] t.pool latest_time in
      elim p.again [
        | true ↦ run_again k bt p.world p.timers
        | false ↦ some (record {
          timers = p.timers;
          world = p.world;
          mintime = if is_nil p.timers.pool then 0 else p.mintime;
        })
      ]

  -- `now` is what the clock would give.
  pub timer_pool_run : ℕ → ℕ → ℕ → L.W → Timers → Option Ran
  timer_pool_run k now bt w t =
      if is_nil t.pool
      then some (record { timers = record t { dirty = false }; world = w; mintime = 0 })
      else run_again k (if bt == 0 then now else bt) w t
