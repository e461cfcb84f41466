-- ===== src/Profile/Hosts.antt =====
-- nfq2/desync.c: the end of `dp_match`, where the host name decides.
use mathlib.Core.Path.{subst}
use prizma.Base.{
  ℕ, ◌≡◌, refl, Bool, true, false, none, some, List, Bool-cases, Option-cases, inl, inr,
}
use prizma.Hostlist.{Pools, hostlist_check_lists}
use prizma.Hostlist.Walk.{true_not_false}
use prizma.Hostlist.Load.{System, hostlist_check-skip}
use prizma.Hostlist.Domains.{Allows, hostlist_check_lists-Allows}
use prizma.Ipset.{Trees}
use prizma.Ipset.Load.{Pton}
use prizma.Profile.{Profile, Request, Files, Check, Matched, is_some, hostlists_empty, match_host}
use prizma.Profile.Wins.{
  learns, unlisted, allowed, HostWins, Unlisted, empty-Unlisted, Unlisted-empty, Verdict-of,
  Verdict,
}

module _ (P : Pools) (K : Trees) (sys : System) (pton : Pton) (autos : List ℕ)
    (rq : Request P K sys pton) (w : Files P K sys pton) where
  module _ (dp : Profile) (check : Check P K sys pton) where
    abbrev pub HostWin : Type 0
    HostWin = HostWins P K sys pton autos rq w dp.lists

    abbrev pub Says : Type 0 → Matched P K sys pton → Type 0
    Says = Verdict P K sys pton autos rq w

    abbrev pub empty : Bool
    empty = hostlists_empty P K sys pton dp w

    abbrev pub auto : Bool
    auto = is_some dp.lists.hostlist_auto

    abbrev pub at_host : Matched P K sys pton
    at_host = match_host P K sys pton autos dp rq empty check w

    pub not_empty : empty ≡ false → Unlisted P K sys pton autos rq w dp.lists → ⊥
    not_empty n u = true_not_false empty (Unlisted-empty P K sys pton autos rq w dp u) n

    passed : Matched P K sys pton
    passed = record { result = true; check = check; files = w }

    unknown_eq : rq.hostname ≡ none → at_host ≡ record { result = empty; check = check; files = w }
    unfolding match_host
    unknown_eq n = rw n refl

    learns_eq : (host : List ℕ) → rq.hostname ≡ some host → auto ≡ true → at_host ≡ passed
    unfolding match_host passed
    learns_eq host e a = rw (e, a) refl

    empty_eq :
        (host : List ℕ) → rq.hostname ≡ some host → auto ≡ false → empty ≡ true → at_host ≡ passed
    unfolding match_host passed
    empty_eq host e a n = rw (e, a, n) refl

    abbrev lists : List ℕ → Bool × Bool
    lists host =
        hostlist_check_lists P w.hostlists dp.lists.hl_collection dp.lists.hl_collection_exclude
          host rq.no_subdom

    abbrev looked_up : List ℕ → Matched P K sys pton
    looked_up host = record {
      result = (lists host).0;
      check = record { done = true; result = (lists host).0; excluded = (lists host).1 };
      files = w;
    }

    listed_eq :
        (host : List ℕ)
        → rq.hostname ≡ some host
        → auto ≡ false
        → empty ≡ false
        → at_host ≡ looked_up host
    unfolding match_host
    listed_eq host e a n =
        rw (e, a, n, hostlist_check-skip P sys autos dp.lists w.hostlists host rq.no_subdom) refl

    unknown_wins : rq.hostname ≡ none → HostWin → empty ≡ true
    unknown_wins n (learns host e a) = cc
    unknown_wins n (unlisted u) = Unlisted-empty P K sys pton autos rq w dp u
    unknown_wins n (allowed host e a) = cc

    won : HostWin → Says HostWin passed
    unfolding passed
    won v = (refl, ((λ h. v), λ x. refl))

    listed_wins :
        (host : List ℕ)
        → rq.hostname ≡ some host
        → auto ≡ false
        → empty ≡ false
        → HostWin
        → Allows P w.hostlists rq.no_subdom host dp.lists.hl_collection
            dp.lists.hl_collection_exclude
    listed_wins host e a n (learns h f b) = absurd (true_not_false auto b a)
    listed_wins host e a n (unlisted u) = absurd (not_empty n u)
    listed_wins host e a n (allowed h f v) =
        let same : h ≡ host = cc in
        subst
          (λ x.
            Allows P w.hostlists rq.no_subdom x dp.lists.hl_collection
              dp.lists.hl_collection_exclude)
          same v

    looked_up-Verdict :
        (host : List ℕ)
        → rq.hostname ≡ some host
        → auto ≡ false
        → empty ≡ false
        → Says HostWin (looked_up host)
    looked_up-Verdict host e a n =
        let ((forward, back), _) =
          hostlist_check_lists-Allows P w.hostlists rq.no_subdom host dp.lists.hl_collection
            dp.lists.hl_collection_exclude in
        (refl, ((λ h. allowed host e (forward h)), λ v. back (listed_wins host e a n v)))

    pub match_host-Verdict : Says HostWin at_host
    match_host-Verdict = elim (Option-cases rq.hostname) [
      | inl n ↦ Verdict-of P K sys pton autos rq w (unknown_eq n) (
        refl,
        ((λ h. unlisted (empty-Unlisted P K sys pton autos rq w dp h)), λ v. unknown_wins n v),
      )
      | inr (host, e) ↦ elim (Bool-cases auto) [
        | inl a ↦ Verdict-of P K sys pton autos rq w (learns_eq host e a) (won (learns host e a))
        | inr a ↦ elim (Bool-cases empty) [
          | inl n ↦
              Verdict-of P K sys pton autos rq w (empty_eq host e a n)
                (won (unlisted (empty-Unlisted P K sys pton autos rq w dp n)))
          | inr n ↦
              Verdict-of P K sys pton autos rq w (listed_eq host e a n)
                (looked_up-Verdict host e a n)
        ]
      ]
    ]
