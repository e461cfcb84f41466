-- ===== src/Profile/First.antt =====
-- nfq2/desync.c: which profile `dp_find` finds.
mod Tests
use mathlib.Core.Path.{subst}
use prizma.Base.{
  ℕ, suc, ◌≡◌, ◌↔◌, ◌⊎◌, ◌∙◌, ap, ap₂, sym, refl, Bool, true, false, not, ◌&&◌, ◌||◌, Option, none,
  some, List, [], ◌∷◌, if◌then◌else◌, Bool-cases, Option-cases, inl, inr,
}
use prizma.Hostlist.{Pools, hostlist_collection_is_empty, hostlist_check_lists}
use prizma.Hostlist.Walk.{true_not_false}
use prizma.Hostlist.Load.{
  System, ProfileLists, hostlists_reload_check_for_profile, hostlist_check-skip,
}
use prizma.Hostlist.Domains.{
  AllNull, Allows, empty-AllNull, AllNull-empty, hostlist_check_lists-Allows,
}
use prizma.Ipset.{Trees}
use prizma.Ipset.Load.{Pton, ipset_check, ipsets_reload_check_for_profile}
use prizma.Ipset.Verdict.{AllowsEnds, EndsVerdict, ipset_check-EndsVerdict}
use prizma.Profile.{
  Profile, Request, Files, Check, Matched, DpFound, is_some, hostlists_empty, filters_match,
  match_host, match_addresses, dp_match, next, find_loop, dp_find,
}
use prizma.Profile.Wins.{
  HostWins, Unlisted, empty-Unlisted, Unlisted-empty, Verdict-of, Verdict, IsSteady, Wins,
}
use prizma.Profile.Matches.{dp_match-Verdict}

module _ (P : Pools) (K : Trees) (sys : System) (pton : Pton) (autos : List ℕ)
    (rq : Request P K sys pton) (w : Files P K sys pton) where
  -- The first of the profiles that wins, where there is one.
  pub data FirstWin : List Profile → Option ℕ → Type 0 where
    first :
        {dp : Profile} {dps : List Profile}
        → Wins P K sys pton autos rq w dp
        → FirstWin (dp ∷ dps) (some 0)
    after :
        {dp : Profile} {dps : List Profile} {i : ℕ}
        → (Wins P K sys pton autos rq w dp → ⊥)
        → FirstWin dps (some i)
        → FirstWin (dp ∷ dps) (some (suc i))
    nowhere : FirstWin [] none
    nor_after :
        {dp : Profile} {dps : List Profile}
        → (Wins P K sys pton autos rq w dp → ⊥)
        → FirstWin dps none
        → FirstWin (dp ∷ dps) none

  abbrev pub AllSteady : List Profile → Type 0
  AllSteady [] = Unit
  AllSteady (dp ∷ dps) = IsSteady P K sys pton autos rq w dp × AllSteady dps

  IsFirst : List Profile → DpFound P K sys pton → Type 0
  IsFirst profiles f = FirstWin profiles f.profile × (f.files ≡ w)

  loses_then :
      (dp : Profile) (dps : List Profile) (o : Option ℕ)
      → (Wins P K sys pton autos rq w dp → ⊥)
      → FirstWin dps o
      → FirstWin (dp ∷ dps) (next o)
  loses_then dp dps none l f = nor_after l f
  loses_then dp dps (some i) l f = after l f

  bump : DpFound P K sys pton → DpFound P K sys pton
  bump f = record f { profile = next f.profile }

  found_first :
      (dp : Profile) (dps : List Profile) (check : Check P K sys pton)
      → (dp_match P K sys pton autos dp rq check w).result ≡ true
      → let m = dp_match P K sys pton autos dp rq check w in
        find_loop P K sys pton autos (dp ∷ dps) rq check w
        ≡ record { profile = some 0; check = m.check; files = m.files }
  unfolding find_loop
  found_first dp dps check e = rw e refl

  found_later :
      (dp : Profile) (dps : List Profile) (check : Check P K sys pton)
      → (dp_match P K sys pton autos dp rq check w).result ≡ false
      → (dp_match P K sys pton autos dp rq check w).files ≡ w
      → find_loop P K sys pton autos (dp ∷ dps) rq check w
        ≡ bump (
            find_loop P K sys pton autos dps rq (dp_match P K sys pton autos dp rq check w).check w)
  unfolding find_loop bump
  found_later dp dps check e same =
      let m = dp_match P K sys pton autos dp rq check w in
      rw e (ap (λ x. bump (find_loop P K sys pton autos dps rq m.check x)) same)

  bump-IsFirst :
      (dp : Profile) (dps : List Profile) (f : DpFound P K sys pton)
      → (Wins P K sys pton autos rq w dp → ⊥)
      → IsFirst dps f
      → IsFirst (dp ∷ dps) (bump f)
  unfolding IsFirst bump
  bump-IsFirst dp dps f l (win, same) = (loses_then dp dps f.profile l win, same)

  find_loop-IsFirst :
      (profiles : List Profile) (check : Check P K sys pton)
      → AllSteady profiles
      → IsFirst profiles (find_loop P K sys pton autos profiles rq check w)
  unfolding find_loop IsFirst
  find_loop-IsFirst [] check st = (nowhere, refl)
  find_loop-IsFirst (dp ∷ dps) check st =
      let m = dp_match P K sys pton autos dp rq check w in
      let (same, (forward, back)) = dp_match-Verdict P K sys pton autos rq w dp check st.0 in
      elim (Bool-cases m.result) [
        | inl e ↦
            subst (IsFirst (dp ∷ dps)) (sym (found_first dp dps check e)) (first (forward e), same)
        | inr e ↦ subst (IsFirst (dp ∷ dps)) (sym (found_later dp dps check e same)) (
            bump-IsFirst dp dps (find_loop P K sys pton autos dps rq m.check w)
              (λ v. true_not_false m.result (back v) e) (find_loop-IsFirst dps m.check st.1))
      ]

  -- Where no file of a list is to be loaded again, the search finds the first of the profiles that is for
  -- what is searched, or none where none is, and changes no list: the filters of that profile match, its
  -- lists allow the addresses, and it learns host names and the name is known, or its lists allow the
  -- name, or it has no name in its lists. No check that is saved on the way changes which one it is.
  pub dp_find-FirstWin :
      (profiles : List Profile) (check : Check P K sys pton)
      → AllSteady profiles
      → let f = dp_find P K sys pton autos profiles rq check w in
        FirstWin profiles f.profile × (f.files ≡ w)
  unfolding dp_find IsFirst
  dp_find-FirstWin profiles check st = find_loop-IsFirst profiles (record check { done = false }) st
