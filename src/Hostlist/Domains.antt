-- ===== src/Hostlist/Domains.antt =====
-- nfq2/hostlist.c: `SearchHostList` and `HostlistCheck_` against the sets of domains that lists stand for.
use prizma.Base.{
  ℕ, suc, ◌≡◌, ◌↔◌, ◌⊎◌, ◌∙◌, ap, sym, refl, Bool, true, false, some, List, [], ◌∷◌, ◌++◌, length,
  arith, Bool-cases, inl, inr,
}
use prizma.Hostlist.Walk.{Match, here, parent, true_not_false, search_loop-Match, Match-search_loop}
use prizma.Hostlist.{
  Pools, HostlistFile, is_strict, entry_hit, search_loop, search_host_list, pool_at,
  hostlist_collection_is_empty, search_lists, hostlist_check_lists,
}

-- A host belongs to the domain of an entry: it is its name, or ends in a dot and its name, where the
-- entry is not for its name alone and subdomains count.
pub data IsUnder (no_match_subdomains : Bool) (host name : List ℕ) (flags : ℕ) : Type 0 where
  same : host ≡ name → IsUnder no_match_subdomains host name flags
  below :
      no_match_subdomains ≡ false
      → is_strict flags ≡ false
      → (pre : List ℕ) → host ≡ pre ++ (b'.' ∷ name)
      → IsUnder no_match_subdomains host name flags

module _ (P : Pools) (pool : P.T) (no_sub : Bool) where
  -- The domains of a pool have a host.
  pub record Covers (host : List ℕ) : Type 0 where
    pub name : List ℕ
    pub flags : ℕ
    pub entry : P.find pool name ≡ some flags
    pub under : IsUnder no_sub host name flags

  Match-Covers : (host : List ℕ) → Match P pool no_sub true host → Covers host
  Match-Covers host (here flags e h) = record {
    name = host;
    flags = flags;
    entry = e;
    under = same refl;
  }
  Match-Covers host (parent pre name flags n s e h) = record {
    name = name;
    flags = flags;
    entry = e;
    under = below n h pre s;
  }

  full_hit : (flags : ℕ) → entry_hit P true (some flags) ≡ true
  unfolding entry_hit
  full_hit flags = ground arith

  Under-Match :
      (host name : List ℕ) (flags : ℕ)
      → P.find pool name ≡ some flags
      → IsUnder no_sub host name flags
      → Match P pool no_sub true host
  Under-Match host name flags e (same s) = here flags (ap (P.find pool) s ∙ e) (full_hit flags)
  Under-Match host name flags e (below n h pre s) = parent pre name flags n s e h

  none_some :
      (name : List ℕ) (flags : ℕ) → P.is_null pool ≡ true → P.find pool name ≡ some flags → ⊥
  none_some name flags n e = let f = P.find-is_null pool name n in cc

  not_null :
      (host : List ℕ)
      → P.is_null pool ≡ false
      → search_host_list P pool host no_sub
        ≡ search_loop P (suc (length host)) pool host no_sub true
  unfolding search_host_list
  not_null host n = rw n refl

  search_host_list-Covers :
      (host : List ℕ) → search_host_list P pool host no_sub ≡ true → Covers host
  unfolding search_host_list
  search_host_list-Covers host h = elim (Bool-cases (P.is_null pool)) [
    | inl n ↦ absurd (true_not_false (search_host_list P pool host no_sub) h (rw n refl))
    | inr n ↦
        Match-Covers host (
          search_loop-Match P pool no_sub (suc (length host)) host true (sym (not_null host n) ∙ h))
  ]

  Covers-search_host_list :
      (host : List ℕ) → Covers host → search_host_list P pool host no_sub ≡ true
  Covers-search_host_list host c = elim (Bool-cases (P.is_null pool)) [
    | inl n ↦ absurd (none_some c.name c.flags n c.entry)
    | inr n ↦
        not_null host n
        ∙ Match-search_loop P pool no_sub (suc (length host)) host true (omega arith)
            (Under-Match host c.name c.flags c.entry c.under)
  ]

module _ (P : Pools) (files : List (HostlistFile P)) (no_sub : Bool) (host : List ℕ) where
  -- One of the lists has the host.
  pub data Listed : List ℕ → Type 0 where
    first : {i : ℕ} {is : List ℕ} → Covers P (pool_at P files i) no_sub host → Listed (i ∷ is)
    later : {i : ℕ} {is : List ℕ} → Listed is → Listed (i ∷ is)

  search_lists-Listed : (is : List ℕ) → search_lists P files is host no_sub ≡ true → Listed is
  unfolding search_lists
  search_lists-Listed [] h = cc
  search_lists-Listed (i ∷ is) h =
      elim (Bool-cases (search_host_list P (pool_at P files i) host no_sub)) [
        | inl e ↦ first (search_host_list-Covers P (pool_at P files i) no_sub host e)
        | inr e ↦ later (search_lists-Listed is (sym (rw e refl) ∙ h))
      ]

  Listed-search_lists : (is : List ℕ) → Listed is → search_lists P files is host no_sub ≡ true
  unfolding search_lists
  Listed-search_lists [] l = elim l [ ]
  Listed-search_lists (i ∷ is) (first c) =
      rw (Covers-search_host_list P (pool_at P files i) no_sub host c) refl
  Listed-search_lists (i ∷ is) (later l) =
      elim (Bool-cases (search_host_list P (pool_at P files i) host no_sub)) [
        | inl e ↦ rw e refl
        | inr e ↦ rw e (Listed-search_lists is l)
      ]

  -- All lists are null.
  abbrev pub AllNull : List ℕ → Type 0
  AllNull [] = Unit
  AllNull (i ∷ is) = (P.is_null (pool_at P files i) ≡ true) × AllNull is

  pub empty-AllNull : (is : List ℕ) → hostlist_collection_is_empty P files is ≡ true → AllNull is
  unfolding hostlist_collection_is_empty
  empty-AllNull [] h = tt
  empty-AllNull (i ∷ is) h = elim (Bool-cases (P.is_null (pool_at P files i))) [
    | inl e ↦ (e, empty-AllNull is (sym (rw e refl) ∙ h))
    | inr e ↦ absurd (true_not_false (hostlist_collection_is_empty P files (i ∷ is)) h (rw e refl))
  ]

  pub AllNull-empty : (is : List ℕ) → AllNull is → hostlist_collection_is_empty P files is ≡ true
  unfolding hostlist_collection_is_empty
  AllNull-empty [] a = refl
  AllNull-empty (i ∷ is) a = rw a.0 (AllNull-empty is a.1)

  -- What a profile's lists say of a host: no list that excludes has it, and one that includes does, unless
  -- those are all null.
  pub record Allows (hostlists hostlists_exclude : List ℕ) : Type 0 where
    pub outside : Listed hostlists_exclude → ⊥
    pub inside : AllNull hostlists ⊎ Listed hostlists

  Check : List ℕ → List ℕ → Bool × Bool → Type 0
  Check is es r = ((r.0 ≡ true) ↔ Allows is es) × ((r.1 ≡ true) ↔ Listed es)

  module _ (is es : List ℕ) where
    excluded_case :
        search_lists P files es host no_sub ≡ true
        → Check is es (hostlist_check_lists P files is es host no_sub)
    unfolding hostlist_check_lists Check
    excluded_case e =
        let l = search_lists-Listed es e in
        rw e (((λ h. cc), λ a. absurd (a.outside l)), ((λ h. l), λ x. refl))

    module _ (e : search_lists P files es host no_sub ≡ false) where
      not_listed : Listed es → ⊥
      not_listed l =
          true_not_false (search_lists P files es host no_sub) (Listed-search_lists es l) e

      empty_case :
          hostlist_collection_is_empty P files is ≡ true
          → Check is es (hostlist_check_lists P files is es host no_sub)
      unfolding hostlist_check_lists Check
      empty_case n =
          let a : Allows is es = record {
            outside = not_listed;
            inside = inl (empty-AllNull is n);
          } in
          rw (e, n) (((λ h. a), λ x. refl), ((λ h. cc), λ l. absurd (not_listed l)))

      included :
          Allows is es
          → hostlist_collection_is_empty P files is ≡ false
          → search_lists P files is host no_sub ≡ true
      included a n = elim a.inside [
        | inl z ↦
            absurd (true_not_false (hostlist_collection_is_empty P files is) (AllNull-empty is z) n)
        | inr l ↦ Listed-search_lists is l
      ]

      included_case :
          hostlist_collection_is_empty P files is ≡ false
          → Check is es (hostlist_check_lists P files is es host no_sub)
      unfolding hostlist_check_lists Check
      included_case n =
          rw (e, n)
            (
              (
                (λ h. record { outside = not_listed; inside = inr (search_lists-Listed is h) }),
                λ a. included a n,
              ),
              ((λ h. cc), λ l. absurd (not_listed l)),
            )

  -- The check of a host against the lists of a profile, once they are loaded: it passes just where no
  -- list that excludes has a domain of the host and one that includes does, or all that include are
  -- null; and it tells that the host is excluded just where one of the former has one.
  pub hostlist_check_lists-Allows :
      (is es : List ℕ)
      → let r = hostlist_check_lists P files is es host no_sub in
        ((r.0 ≡ true) ↔ Allows is es) × ((r.1 ≡ true) ↔ Listed es)
  unfolding Check
  hostlist_check_lists-Allows is es = elim (Bool-cases (search_lists P files es host no_sub)) [
    | inl e ↦ excluded_case is es e
    | inr e ↦ elim (Bool-cases (hostlist_collection_is_empty P files is)) [
      | inl n ↦ empty_case is es e n
      | inr n ↦ included_case is es e n
    ]
  ]
