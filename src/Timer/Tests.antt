-- ===== src/Timer/Tests.antt =====
-- Runs of three timers.
use prizma.Base.{
  ℕ, ◌≡◌, if◌then◌else◌, refl, Bool, true, false, Option, none, some, List, [], ◌∷◌, arith,
}
use prizma.Text.{same_text}
use prizma.Timer.{
  Timer, Timers, Lua, Ran, timer_del, timer_pool_next, timer_pool_run, is_nil, run_again, pass,
  timer_next, due, act, acts, lower, settle, timer_pool_search, without, timer_pool_del,
}
use prizma.Timer.Run.{AllAfter, timer_pool_run-once}

abbrev timer_of : ℕ → ℕ → Bool → ℕ → Timer
timer_of c period oneshot bt_next = record {
  str = c ∷ [];
  period = period;
  oneshot = oneshot;
  bt_next = bt_next;
  n = c;
  fires = 0;
  addr = c;
}

abbrev three : Timers
three = record {
  pool = timer_of b'a' 30 false 100 ∷ timer_of b'b' 10 true 90 ∷ timer_of b'c' 10 false 200 ∷ [];
  timer_n = 3;
  dirty = false;
}

-- Every function succeeds, and does nothing.
abbrev quiet_lua : Lua
quiet_lua = record {
  W = Unit;
  strdup = λ w e. true;
  result = λ w e. true;
  script = λ w e. [];
  after = λ w e. w;
}

-- The function that is called first deletes a timer.
abbrev busy_lua : Lua
busy_lua = record {
  W = Bool;
  strdup = λ w e. true;
  result = λ w e. true;
  script = λ w e. if w then timer_del (b'a' ∷ []) ∷ [] else [];
  after = λ w e. false;
}

time_of : Option (Ran quiet_lua) → ℕ
time_of none = 0
time_of (some r) = r.mintime

quiet_run : time_of (timer_pool_run quiet_lua 1 0 100 tt three) ≡ 130
unfolding time_of timer_pool_run is_nil run_again pass timer_next due acts lower
quiet_run = refl

names : List Timer → List (List ℕ)
names [] = []
names (e ∷ es) = e.str ∷ names es

left : {L : Lua} → Option (Ran L) → List (List ℕ)
left none = []
left (some r) = names r.timers.pool

-- A timer that deletes itself makes the loop start again.
busy_run : left {L = busy_lua} (timer_pool_run busy_lua 2 0 100 true three) ≡ (b'c' ∷ []) ∷ []
unfolding left names timer_pool_run is_nil run_again pass timer_next due acts act lower settle
    timer_pool_search same_text without timer_pool_del
busy_run = refl

timer_pool_run-once_example :
    (r : Ran quiet_lua) × (timer_pool_run quiet_lua 1 0 100 tt three ≡ some r)
    × (r.mintime ≡ timer_pool_next r.timers.pool)
    × AllAfter 100 r.timers.pool
timer_pool_run-once_example =
    timer_pool_run-once quiet_lua 0 0 100 tt three (λ w e. refl) (omega arith)
      (omega arith, omega arith, (omega arith, omega arith, (omega arith, omega arith, tt)))
