-- ===== src/Hostlist.antt =====
-- nfq2/hostlist.c, and the pools and lists of host names of nfq2/pools.c. The hash table, a library in C,
-- is an interface here. A pointer to a file of host names is its place in the list of all of them.
pub mod Walk
pub mod Domains
pub mod Load
pub mod Table
mod Tests
use prizma.Base.{
  refl, Option-cases, inl, inr, ℕ, zero, suc, ◌%◌, ◌≡◌, ◌≢◌, Bool, true, false, not, ◌&&◌, ◌||◌,
  Option, none, some, List, [], ◌∷◌, ◌==◌, if◌then◌else◌, length, drop, get_elem?,
}
use prizma.Text.{strchr}

-- What the code relies on of HASH_FIND and HASH_ADD on a table of texts, whose pointer is null where it
-- is empty. An entry of a pool has only its flags beside its key.
pub record Pools : Type 1 where
  pub T : Type 0
  pub null : T
  pub is_null : T → Bool
  pub find : T → List ℕ → Option ℕ
  pub add : T → List ℕ → ℕ → T
  pub is_null-null : is_null null ≡ true
  pub is_null-add : (t : T) (s : List ℕ) (v : ℕ) → is_null (add t s v) ≡ false
  pub find-is_null : (t : T) (s : List ℕ) → is_null t ≡ true → find t s ≡ none
  pub find-add : (t : T) (s : List ℕ) (v : ℕ) → find (add t s v) s ≡ some v
  pub find-add_other : (t : T) (s u : List ℕ) (v : ℕ) → s ≢ u → find (add t s v) u ≡ find t u

-- `file_mod_sig`
pub record ModSig : Type 0 where
  pub mod_time : ℕ
  pub size : ℕ

-- `flags & HOSTLIST_POOL_FLAG_STRICT_MATCH`, the lowest bit.
abbrev pub is_strict : ℕ → Bool
is_strict flags = not (flags % 2 == 0)

-- `if (p) p++;`: the rest of a name after its next dot.
after_dot : Option (List ℕ) → Option (List ℕ)
after_dot none = none
after_dot (some s) = some (drop 1 s)

module _ (P : Pools) where
  -- `struct hostlist_file`
  pub record HostlistFile : Type 0 where
    pub filename : Option (List ℕ)
    pub mod_sig : ModSig
    pub hostlist : P.T

  -- `memory` tells whether the calls of `malloc` and HASH_ADD succeed.
  pub hostlist_pool_add_str_len : Bool → P.T → List ℕ → ℕ → Bool × P.T
  hostlist_pool_add_str_len memory pool s flags = elim (P.find pool s) [
    | some _ ↦ (true, pool)
    | none ↦ if memory then (true, P.add pool s flags) else (false, pool)
  ]

  -- Where there is memory, the text has an entry afterwards.
  pub hostlist_pool_add_str_len-entry :
      (pool : P.T) (s : List ℕ) (flags : ℕ)
      → (pool' : P.T) × (hostlist_pool_add_str_len true pool s flags ≡ (true, pool'))
        × ((v : ℕ) × (P.find pool' s ≡ some v))
  unfolding hostlist_pool_add_str_len
  hostlist_pool_add_str_len-entry pool s flags = elim (Option-cases (P.find pool s)) [
    | inr (v, e) ↦ (pool, rw (e, hostlist_pool_add_str_len) refl, (v, e))
    | inl e ↦ (
      P.add pool s flags,
      rw (e, hostlist_pool_add_str_len) refl,
      (flags, P.find-add pool s flags),
    )
  ]

  -- Whether the entry that is found for a part of the host is a match.
  pub entry_hit : Bool → Option ℕ → Bool
  entry_hit host_full none = false
  entry_hit host_full (some flags) = not (is_strict flags && not host_full)

  -- `while (p)` of `SearchHostList`, as often as fuel allows.
  pub search_loop : ℕ → P.T → List ℕ → Bool → Bool → Bool
  search_loop zero pool p no_match_subdomains host_full = false
  search_loop (suc k) pool p no_match_subdomains host_full =
      let next : Bool = elim (after_dot (strchr b'.' p)) [
        | none ↦ false
        | some q ↦ search_loop k pool q no_match_subdomains false
      ] in
      if entry_hit host_full (P.find pool p)
      then true
      else if no_match_subdomains
      then false
      else next

  pub search_host_list : P.T → List ℕ → Bool → Bool
  search_host_list pool host no_match_subdomains =
      if P.is_null pool
      then false
      else search_loop (suc (length host)) pool host no_match_subdomains true

  -- What a place of the list of files points to.
  abbrev pub pool_at : List HostlistFile → ℕ → P.T
  pool_at [] i = P.null
  pool_at (f ∷ fs) zero = f.hostlist
  pool_at (f ∷ fs) (suc i) = pool_at fs i

  pub hostlist_collection_is_empty : List HostlistFile → List ℕ → Bool
  hostlist_collection_is_empty files [] = true
  hostlist_collection_is_empty files (i ∷ is) =
      let rest = hostlist_collection_is_empty files is in
      if not (P.is_null (pool_at files i)) then false else rest

  -- The two LIST_FOREACH of `HostlistCheck_`.
  pub search_lists : List HostlistFile → List ℕ → List ℕ → Bool → Bool
  search_lists files [] host no_match_subdomains = false
  search_lists files (i ∷ is) host no_match_subdomains =
      let rest = search_lists files is host no_match_subdomains in
      if search_host_list (pool_at files i) host no_match_subdomains then true else rest

  -- `HostlistCheck_` after the check for a reload: the result, and what is stored in `excluded`.
  pub hostlist_check_lists : List HostlistFile → List ℕ → List ℕ → List ℕ → Bool → Bool × Bool
  hostlist_check_lists files hostlists hostlists_exclude host no_match_subdomains =
      if search_lists files hostlists_exclude host no_match_subdomains
      then (false, true)
      else if not (hostlist_collection_is_empty files hostlists)
      then (search_lists files hostlists host no_match_subdomains, false)
      else (true, false)
