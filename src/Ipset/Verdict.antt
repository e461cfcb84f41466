-- ===== src/Ipset/Verdict.antt =====
-- nfq2/ipset.c: `IpsetCheck` against the sets of addresses that lists stand for.
use prizma.Base.{ℕ, ◌≡◌, ◌↔◌, ◌⊎◌, ◌∙◌, sym, refl, Bool, true, List, [], ◌∷◌, Bool-cases, inl, inr}
use prizma.Hostlist.Walk.{true_not_false}
use prizma.Hostlist.Load.{System}
use prizma.Ipset.{
  Trees, IpsetFile, Sides, ipset_at, ipset_empty, ipset_collection_is_empty, either_in,
  search_ipsets, ipset_check_lists,
}
use prizma.Ipset.Load.{
  Pton, ProfileIpsets, ipsets_absent, ipsets_reload_check_for_profile, ipset_check,
}

module _ (K : Trees) (files : List (IpsetFile K)) (e : Sides K) where
  -- One of the lists has an address of either side.
  pub data HasEnd : List ℕ → Type 0 where
    first : {i : ℕ} {is : List ℕ} → either_in K (ipset_at K files i) e ≡ true → HasEnd (i ∷ is)
    later : {i : ℕ} {is : List ℕ} → HasEnd is → HasEnd (i ∷ is)

  -- All lists are empty.
  abbrev pub AllEmpty : List ℕ → Type 0
  AllEmpty [] = Unit
  AllEmpty (i ∷ is) = (ipset_empty K (ipset_at K files i) ≡ true) × AllEmpty is

  -- What the lists of a profile say of the addresses of a packet.
  pub record AllowsEnds (ips ips_exclude : List ℕ) : Type 0 where
    pub outside : HasEnd ips_exclude → ⊥
    pub inside : AllEmpty ips ⊎ HasEnd ips

  search-HasEnd : (is : List ℕ) → search_ipsets K files is e ≡ true → HasEnd is
  unfolding search_ipsets
  search-HasEnd [] h = cc
  search-HasEnd (i ∷ is) h = elim (Bool-cases (either_in K (ipset_at K files i) e)) [
    | inl b ↦ first b
    | inr b ↦ later (search-HasEnd is (sym (rw b refl) ∙ h))
  ]

  HasEnd-search : (is : List ℕ) → HasEnd is → search_ipsets K files is e ≡ true
  unfolding search_ipsets
  HasEnd-search [] l = elim l [ ]
  HasEnd-search (i ∷ is) (first b) = rw b refl
  HasEnd-search (i ∷ is) (later l) = elim (Bool-cases (either_in K (ipset_at K files i) e)) [
    | inl b ↦ rw b refl
    | inr b ↦ rw b (HasEnd-search is l)
  ]

  empty-AllEmpty : (is : List ℕ) → ipset_collection_is_empty K files is ≡ true → AllEmpty is
  unfolding ipset_collection_is_empty
  empty-AllEmpty [] h = tt
  empty-AllEmpty (i ∷ is) h = elim (Bool-cases (ipset_empty K (ipset_at K files i))) [
    | inl b ↦ (b, empty-AllEmpty is (sym (rw b refl) ∙ h))
    | inr b ↦ absurd (true_not_false (ipset_collection_is_empty K files (i ∷ is)) h (rw b refl))
  ]

  AllEmpty-empty : (is : List ℕ) → AllEmpty is → ipset_collection_is_empty K files is ≡ true
  unfolding ipset_collection_is_empty
  AllEmpty-empty [] a = refl
  AllEmpty-empty (i ∷ is) a = rw a.0 (AllEmpty-empty is a.1)

  module _ (is es : List ℕ) where
    lists-AllowsEnds : ipset_check_lists K files is es e ≡ true → AllowsEnds is es
    unfolding ipset_check_lists
    lists-AllowsEnds h = elim (Bool-cases (search_ipsets K files es e)) [
      | inl b ↦ absurd (true_not_false (ipset_check_lists K files is es e) h (rw b refl))
      | inr b ↦
          let out : HasEnd es → ⊥ =
            λ l. true_not_false (search_ipsets K files es e) (HasEnd-search es l) b in
          elim (Bool-cases (ipset_collection_is_empty K files is)) [
            | inl n ↦ record { outside = out; inside = inl (empty-AllEmpty is n) }
            | inr n ↦ record {
              outside = out;
              inside = inr (search-HasEnd is (sym (rw (b, n) refl) ∙ h));
            }
          ]
    ]

    AllowsEnds-lists : AllowsEnds is es → ipset_check_lists K files is es e ≡ true
    unfolding ipset_check_lists
    AllowsEnds-lists a = elim (Bool-cases (search_ipsets K files es e)) [
      | inl b ↦ absurd (a.outside (search-HasEnd es b))
      | inr b ↦ elim (Bool-cases (ipset_collection_is_empty K files is)) [
        | inl n ↦ rw (b, n) refl
        | inr n ↦
            rw (b, n)
              (elim a.inside [
                | inl z ↦
                    absurd (
                      true_not_false (ipset_collection_is_empty K files is) (AllEmpty-empty is z) n)
                | inr l ↦ HasEnd-search is l
              ])
      ]
    ]

module _ (K : Trees) (sys : System) (pton : Pton) (files : List (IpsetFile K)) (e : Sides K) where
  abbrev pub EndsVerdict : ProfileIpsets → Bool × List (IpsetFile K) → Type 0
  EndsVerdict dp r =
      (r.1 ≡ files)
      × ((r.0 ≡ true) ↔ AllowsEnds K files e dp.ips_collection dp.ips_collection_exclude)

  absent-AllowsEnds :
      (is es : List ℕ)
      → ipsets_absent (record { ips_collection = is; ips_collection_exclude = es }) ≡ true
      → AllowsEnds K files e is es
  unfolding ipsets_absent
  absent-AllowsEnds [] [] h = record { outside = λ l. elim l [ ]; inside = inl tt }
  absent-AllowsEnds [] (j ∷ es) h = cc
  absent-AllowsEnds (i ∷ is) es h = cc

  -- Where no file is to be loaded again, a profile without lists needs no case of its own.
  pub ipset_check-EndsVerdict :
      (dp : ProfileIpsets)
      → ipsets_reload_check_for_profile K sys pton dp files ≡ (true, files)
      → EndsVerdict dp (ipset_check K sys pton dp files e)
  unfolding ipset_check
  ipset_check-EndsVerdict dp steady = elim (Bool-cases (ipsets_absent dp)) [
    | inl n ↦
        let a = absent-AllowsEnds dp.ips_collection dp.ips_collection_exclude n in
        rw n (refl, ((λ h. a), λ x. refl))
    | inr n ↦
        let is = dp.ips_collection in
        let es = dp.ips_collection_exclude in
        rw (n, steady)
          (
            refl,
            ((λ h. lists-AllowsEnds K files e is es h), λ a. AllowsEnds-lists K files e is es a),
          )
  ]
