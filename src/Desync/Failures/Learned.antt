-- ===== src/Desync/Failures/Learned.antt =====
-- nfq2/desync.c: a host that goes on failing, from `auto_hostlist_failed` to its place in the list.
use prizma.Base.{ℕ, suc, ◌≡◌, ◌⊎◌, Bool, true, false, Option, none, some, List, [], ◌∷◌}
use prizma.Hostlist.{Pools, pool_at}
use prizma.Hostlist.Domains.{Covers}
use prizma.Hostlist.Load.{hostlist_check}
use prizma.Desync.Failures.{
  FailCounter, FailPools, Moment, AutoProfile, Fails, auto_hostlist_failed,
}

module _ (P : Pools) (F : FailPools) (dp : AutoProfile) (autos : List ℕ) (hostname : List ℕ)
    (no_subdom : Bool) where
  -- The failures that are counted.
  abbrev pub counted : Option FailCounter → ℕ
  counted none = 0
  counted (some f) = f.counter

  abbrev pub failures : Fails P F → ℕ
  failures w = counted (F.find w.counters hostname)

  -- There is memory for an entry of the host.
  abbrev pub HasMemory : Moment → Type 0
  HasMemory m = m.sys.memory hostname ≡ true

  -- Failures one after the other.
  abbrev pub fail_all : List Moment → Fails P F → Fails P F
  fail_all [] w = w
  fail_all (m ∷ ms) w = fail_all ms (auto_hostlist_failed P F m dp autos w hostname no_subdom)

  abbrev pub AllHaveMemory : List Moment → Type 0
  AllHaveMemory [] = Unit
  AllHaveMemory (m ∷ ms) = HasMemory m × AllHaveMemory ms

  -- Counting a failure.
  record Counts (w : Fails P F) (c : Option (ℕ × F.T)) : Type 0 where
    counters : F.T
    counts : c ≡ some (suc (failures w), counters)
    stored : counted (F.find counters hostname) ≡ suc (failures w)

  abbrev failed : Moment → Fails P F → Fails P F
  failed m w = auto_hostlist_failed P F m dp autos w hostname no_subdom

  -- Below the threshold only the counter changes.
  record Continues (w w' : Fails P F) : Type 0 where
    more : failures w' ≡ suc (failures w)
    files : w'.files ≡ w.files

  -- What becomes of a host whose threshold is reached, by the check that is made of it then.
  pub record GivenUp (m : Moment) (w w' : Fails P F) : Type 0 where
    pub forgotten : F.find w'.counters hostname ≡ none
    pub known :
        let c = hostlist_check P m.sys autos dp.lists w.files hostname no_subdom false in
        (c.result ≡ true)
        ⊎ (c.excluded ≡ true)
        ⊎ Covers P (pool_at P w'.files dp.auto) no_subdom hostname
