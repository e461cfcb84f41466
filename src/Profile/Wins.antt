-- ===== src/Profile/Wins.antt =====
-- nfq2/desync.c: which profile `dp_find` finds.
use mathlib.Core.Path.{subst}
use prizma.Base.{ℕ, ◌≡◌, ◌↔◌, sym, refl, Bool, true, false, not, ◌&&◌, some, List, []}
use prizma.Hostlist.{Pools, hostlist_collection_is_empty}
use prizma.Hostlist.Load.{System, ProfileLists, hostlists_reload_check_for_profile}
use prizma.Hostlist.Domains.{AllNull, Allows, empty-AllNull, AllNull-empty}
use prizma.Ipset.{Trees}
use prizma.Ipset.Load.{Pton, ipsets_reload_check_for_profile}
use prizma.Ipset.Verdict.{AllowsEnds}
use prizma.Profile.{Profile, Request, Files, Matched, is_some, hostlists_empty, filters_match}

pub and_parts : (a b : Bool) → (a && b) ≡ true → (a ≡ true) × (b ≡ true)
and_parts true true h = (refl, refl)
and_parts true false h = cc
and_parts false b h = cc

pub not-true : (b : Bool) → not b ≡ true → b ≡ false
not-true true h = cc
not-true false h = refl

module _ (P : Pools) (K : Trees) (sys : System) (pton : Pton) (autos : List ℕ)
    (rq : Request P K sys pton) (w : Files P K sys pton) where
  -- No list has a host name, be it to include or to exclude.
  abbrev pub Unlisted : ProfileLists → Type 0
  Unlisted l =
      AllNull P w.hostlists false [] l.hl_collection
      × AllNull P w.hostlists false [] l.hl_collection_exclude

  -- What the host name, where it is known, must be: any, for a profile that learns host names; what the
  -- lists allow; or anything or unknown, where no list has a name.
  pub data HostWins (l : ProfileLists) : Type 0 where
    learns : (host : List ℕ) → rq.hostname ≡ some host → is_some l.hostlist_auto ≡ true → HostWins l
    unlisted : Unlisted l → HostWins l
    allowed :
        (host : List ℕ)
        → rq.hostname ≡ some host
        → Allows P w.hostlists rq.no_subdom host l.hl_collection l.hl_collection_exclude
        → HostWins l

  -- A profile is for what is searched: the filters match, the addresses are allowed, and so is the host.
  pub record Wins (dp : Profile) : Type 0 where
    pub filters : filters_match P K sys pton dp rq ≡ true
    pub addresses :
        AllowsEnds K w.ipsets rq.ends dp.ipsets.ips_collection dp.ipsets.ips_collection_exclude
    pub host : HostWins dp.lists

  -- The files of a profile's lists are up to date.
  pub record IsSteady (dp : Profile) : Type 0 where
    pub hostlists :
        hostlists_reload_check_for_profile P sys autos dp.lists w.hostlists ≡ (true, w.hostlists)
    pub ipsets : ipsets_reload_check_for_profile K sys pton dp.ipsets w.ipsets ≡ (true, w.ipsets)

  abbrev pub Verdict : Type 0 → Matched P K sys pton → Type 0
  Verdict A m = (m.files ≡ w) × ((m.result ≡ true) ↔ A)

  pub Verdict-of : {A : Type 0} {m n : Matched P K sys pton} → m ≡ n → Verdict A n → Verdict A m
  Verdict-of e v = subst (Verdict _) (sym e) v

  pub empty-Unlisted : (dp : Profile) → hostlists_empty P K sys pton dp w ≡ true → Unlisted dp.lists
  unfolding hostlists_empty
  empty-Unlisted dp h =
      let (a, b) =
        and_parts (hostlist_collection_is_empty P w.hostlists dp.lists.hl_collection)
          (hostlist_collection_is_empty P w.hostlists dp.lists.hl_collection_exclude) h in
      (
        empty-AllNull P w.hostlists false [] dp.lists.hl_collection a,
        empty-AllNull P w.hostlists false [] dp.lists.hl_collection_exclude b,
      )

  pub Unlisted-empty : (dp : Profile) → Unlisted dp.lists → hostlists_empty P K sys pton dp w ≡ true
  unfolding hostlists_empty
  Unlisted-empty dp u =
      rw
        (
          AllNull-empty P w.hostlists false [] dp.lists.hl_collection u.0,
          AllNull-empty P w.hostlists false [] dp.lists.hl_collection_exclude u.1,
        )
        refl
