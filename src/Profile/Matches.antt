-- ===== src/Profile/Matches.antt =====
-- nfq2/desync.c: `dp_match`.
use prizma.Base.{
  ℕ, ◌≡◌, ap, ap₂, refl, Bool, true, false, not, ◌&&◌, List, if◌then◌else◌, Bool-cases, inl, inr,
}
use prizma.Hostlist.{Pools}
use prizma.Hostlist.Walk.{true_not_false}
use prizma.Hostlist.Load.{System}
use prizma.Ipset.{Trees}
use prizma.Ipset.Load.{Pton, ipset_check}
use prizma.Ipset.Verdict.{AllowsEnds, ipset_check-EndsVerdict}
use prizma.Profile.{
  Profile, Request, Files, Check, Matched, is_some, filters_match, match_addresses, dp_match,
}
use prizma.Profile.Wins.{
  learns, unlisted, allowed, HostWins, Verdict-of, Verdict, IsSteady, Wins, and_parts, not-true,
}
use prizma.Profile.Hosts.{empty, auto, at_host, not_empty, match_host-Verdict}

module _ (P : Pools) (K : Trees) (sys : System) (pton : Pton) (autos : List ℕ)
    (rq : Request P K sys pton) (w : Files P K sys pton) where
  module _ (dp : Profile) (check : Check P K sys pton) where
    abbrev HostWin : Type 0
    HostWin = HostWins P K sys pton autos rq w dp.lists

    abbrev Says : Type 0 → Matched P K sys pton → Type 0
    Says = Verdict P K sys pton autos rq w

    abbrev host_result : Matched P K sys pton
    host_result = at_host P K sys pton autos rq w dp check

    abbrev no_lists : Bool
    no_lists = empty P K sys pton autos rq w dp check

    abbrev learner : Bool
    learner = auto P K sys pton autos rq w dp check

    abbrev at_addresses : Matched P K sys pton
    at_addresses = match_addresses P K sys pton autos dp rq check w

    abbrev hopeless : Bool
    hopeless = not learner && not (is_some rq.hostname) && not no_lists

    abbrev refused : Matched P K sys pton
    refused = record { result = false; check = check; files = w }

    hopeless_eq : hopeless ≡ true → at_addresses ≡ refused
    unfolding match_addresses
    hopeless_eq h = rw h refl

    -- A profile for which the check of the addresses is saved could not win.
    hopeless_loses : hopeless ≡ true → HostWin → ⊥
    unfolding is_some
    hopeless_loses h v =
        let (some_, n) = and_parts (not learner && not (is_some rq.hostname)) (not no_lists) h in
        let (a, k) = and_parts (not learner) (not (is_some rq.hostname)) some_ in
        elim v [
          | learns host e b ↦ true_not_false learner b (not-true learner a)
          | unlisted u ↦ not_empty P K sys pton autos rq w dp check (not-true no_lists n) u
          | allowed host e _ ↦
              true_not_false (is_some rq.hostname) (ap is_some e) (not-true (is_some rq.hostname) k)
        ]

    addresses_eq :
        (b : Bool)
        → hopeless ≡ false
        → ipset_check K sys pton dp.ipsets w.ipsets rq.ends ≡ (b, w.ipsets)
        → at_addresses ≡ (if b then host_result else refused)
    unfolding match_addresses
    addresses_eq b h e = rw (h, e) refl

    refused-Verdict : {A : Type 0} → (A → ⊥) → Says A refused
    refused-Verdict no_ = (refl, ((λ h. cc), λ a. absurd (no_ a)))

    -- What is left to win where the filters match.
    abbrev Rest : Type 0
    Rest =
        AllowsEnds K w.ipsets rq.ends dp.ipsets.ips_collection dp.ipsets.ips_collection_exclude
        × HostWin

    at_host-Rest :
        AllowsEnds K w.ipsets rq.ends dp.ipsets.ips_collection dp.ipsets.ips_collection_exclude
        → Says Rest host_result
    at_host-Rest a =
        let (files, (forward, back)) = match_host-Verdict P K sys pton autos rq w dp check in
        (files, ((λ h. (a, forward h)), λ r. back r.1))

    match_addresses-Verdict : IsSteady P K sys pton autos rq w dp → Says Rest at_addresses
    match_addresses-Verdict st = elim (Bool-cases hopeless) [
      | inl h ↦
          Verdict-of P K sys pton autos rq w (hopeless_eq h)
            (refused-Verdict (λ r. hopeless_loses h r.1))
      | inr h ↦
          let r = ipset_check K sys pton dp.ipsets w.ipsets rq.ends in
          let (same, (forward, back)) =
            ipset_check-EndsVerdict K sys pton w.ipsets rq.ends dp.ipsets st.ipsets in
          elim (Bool-cases r.0) [
            | inl b ↦
                Verdict-of P K sys pton autos rq w
                  (addresses_eq true h (ap₂ (λ x y. (x, y)) b same)) (at_host-Rest (forward b))
            | inr b ↦
                Verdict-of P K sys pton autos rq w
                  (addresses_eq false h (ap₂ (λ x y. (x, y)) b same))
                  (refused-Verdict (λ a. true_not_false r.0 (back a.0) b))
          ]
    ]

  module _ (dp : Profile) (check : Check P K sys pton)
      (st : IsSteady P K sys pton autos rq w dp) where
    abbrev not_done : Check P K sys pton
    not_done = record check { done = false }

    dp_match_eq :
        (b : Bool)
        → filters_match P K sys pton dp rq ≡ b
        → dp_match P K sys pton autos dp rq check w
          ≡ (if b then at_addresses dp not_done else refused dp not_done)
    unfolding dp_match
    dp_match_eq b e = rw (e, st.hostlists) refl

    pub dp_match-Verdict :
        Verdict P K sys pton autos rq w
          (Wins P K sys pton autos rq w dp)
          (dp_match P K sys pton autos dp rq check w)
    dp_match-Verdict = elim (Bool-cases (filters_match P K sys pton dp rq)) [
      | inr e ↦ Verdict-of P K sys pton autos rq w (dp_match_eq false e) (
          refused-Verdict dp not_done
            (λ v. true_not_false (filters_match P K sys pton dp rq) v.filters e))
      | inl e ↦
          let (files, (forward, back)) = match_addresses-Verdict dp not_done st in
          Verdict-of P K sys pton autos rq w (dp_match_eq true e) (
            files,
            (
              (λ h. let r = forward h in record { filters = e; addresses = r.0; host = r.1 }),
              λ v. back (v.addresses, v.host),
            ),
          )
    ]
