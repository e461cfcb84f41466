-- ===== src/Profile.antt =====
-- nfq2/desync.c: the search for the profile of a connection, `dp_match` and `dp_find`; with the lists of
-- filters of nfq2/pools.c and `l7_proto_match` of nfq2/protocol.c.
pub mod Wins
pub mod Hosts
pub mod Matches
pub mod First
use Prim.Native.Nat.{bit_and}
use prizma.Base.{
  ℕ, zero, suc, ◌^◌, Bool, true, false, not, ◌&&◌, ◌||◌, Option, none, some, List, [], ◌∷◌, ltb,
  ◌==◌, if◌then◌else◌,
}
use prizma.Text.{same_text}
use prizma.Filter.{PortFilter, IcmpFilter, IppFilter, pf_match, icf_match, ipp_match}
use prizma.Hostlist.{Pools, HostlistFile, hostlist_collection_is_empty}
use prizma.Hostlist.Load.{System, ProfileLists, hostlists_reload_check_for_profile, hostlist_check}
use prizma.Ipset.{Trees, IpsetFile, Sides, known}
use prizma.Ipset.Load.{Pton, ProfileIpsets, ipset_check}

-- The LIST_FOREACH of the three functions for a list that is not empty.
pub any_port : ℕ → List PortFilter → Bool
any_port port [] = false
any_port port (f ∷ fs) = let rest = any_port port fs in if pf_match port f then true else rest

pub port_filters_match : List PortFilter → ℕ → Bool
port_filters_match [] port = true
port_filters_match (f ∷ fs) port = any_port port (f ∷ fs)

pub any_icmp : ℕ → ℕ → List IcmpFilter → Bool
any_icmp type_ code [] = false
any_icmp type_ code (f ∷ fs) =
    let rest = any_icmp type_ code fs in if icf_match type_ code f then true else rest

pub icmp_filters_match : List IcmpFilter → ℕ → ℕ → Bool
icmp_filters_match [] type_ code = true
icmp_filters_match (f ∷ fs) type_ code = any_icmp type_ code (f ∷ fs)

pub any_ipp : ℕ → List IppFilter → Bool
any_ipp proto [] = false
any_ipp proto (f ∷ fs) = let rest = any_ipp proto fs in if ipp_match proto f then true else rest

pub ipp_filters_match : List IppFilter → ℕ → Bool
ipp_filters_match [] proto = true
ipp_filters_match (f ∷ fs) proto = any_ipp proto (f ∷ fs)

pub strlist_search : List (List ℕ) → Option (List ℕ) → Bool
strlist_search l none = false
strlist_search [] (some str) = false
strlist_search (s ∷ l) (some str) =
    let rest = strlist_search l (some str) in if same_text s str then true else rest

-- `filter_l7 & (1ULL<<l7)`
abbrev has_bit : ℕ → ℕ → Bool
has_bit filter_l7 l7 = not (bit_and filter_l7 (2 ^ l7) == 0)

-- L7_ALL, L7_KNOWN and L7_LAST are 0, 2 and 16.
pub l7_proto_match : ℕ → ℕ → Bool
l7_proto_match l7proto filter_l7 =
    filter_l7 == 0
    || has_bit filter_l7 l7proto
    || has_bit filter_l7 2 && ltb 2 l7proto && ltb l7proto 16

-- `struct desync_profile`, as far as the search reads it.
pub record Profile : Type 0 where
  pub filter_ipv4 : Bool
  pub filter_ipv6 : Bool
  pub pf_tcp : List PortFilter
  pub pf_udp : List PortFilter
  pub icf : List IcmpFilter
  pub ipf : List IppFilter
  pub filter_l7 : ℕ
  pub filter_ssid : List (List ℕ)
  pub ipsets : ProfileIpsets
  pub lists : ProfileLists

-- `switch(l3proto)`: IPPROTO_TCP, IPPROTO_UDP, IPPROTO_ICMP and IPPROTO_ICMPV6 are 6, 17, 1 and 58.
pub l4_match : Profile → ℕ → ℕ → ℕ → ℕ → Bool
l4_match dp l3proto port icmp_type icmp_code =
    if l3proto == 6
    then port_filters_match dp.pf_tcp port
    else if l3proto == 17
    then port_filters_match dp.pf_udp port
    else if l3proto == 1 || l3proto == 58
    then icmp_filters_match dp.icf icmp_type icmp_code
    else ipp_filters_match dp.ipf l3proto

-- `!LIST_EMPTY(&dp->filter_ssid) && !strlist_search(&dp->filter_ssid, ssid)`
pub ssid_mismatch : List (List ℕ) → Option (List ℕ) → Bool
ssid_mismatch [] ssid = false
ssid_mismatch (s ∷ l) ssid = not (strlist_search (s ∷ l) ssid)

pub is_some : {A : Type 0} → Option A → Bool
is_some none = false
is_some (some a) = true

-- The place in the list of what is found in the rest of it.
abbrev pub next : Option ℕ → Option ℕ
next none = none
next (some i) = some (suc i)

module _ (P : Pools) (K : Trees) (sys : System) (pton : Pton) where
  -- What is searched for.
  pub record Request : Type 0 where
    pub l3proto : ℕ
    pub ends : Sides K
    pub port : ℕ
    pub icmp_type : ℕ
    pub icmp_code : ℕ
    pub hostname : Option (List ℕ)
    pub no_subdom : Bool
    pub l7proto : ℕ
    pub ssid : Option (List ℕ)

  -- The files of the lists, which a search can load again.
  pub record Files : Type 0 where
    pub hostlists : List (HostlistFile P)
    pub ipsets : List (IpsetFile K)

  -- `bCheckDone`, `bCheckResult` and `bExcluded`, where they are asked for.
  pub record Check : Type 0 where
    pub done : Bool
    pub result : Bool
    pub excluded : Bool

  pub record Matched : Type 0 where
    pub result : Bool
    pub check : Check
    pub files : Files

  pub hostlists_empty : Profile → Files → Bool
  hostlists_empty dp w =
      hostlist_collection_is_empty P w.hostlists dp.lists.hl_collection
      && hostlist_collection_is_empty P w.hostlists dp.lists.hl_collection_exclude

  -- The filters that are looked at before the lists.
  pub filters_match : Profile → Request → Bool
  filters_match dp rq =
      not (known rq.ends.ipv4 && not dp.filter_ipv4 || known rq.ends.ipv6 && not dp.filter_ipv6)
      && l4_match dp rq.l3proto rq.port rq.icmp_type rq.icmp_code
      && l7_proto_match rq.l7proto dp.filter_l7
      && not (ssid_mismatch dp.filter_ssid rq.ssid)

  -- The end of `dp_match`, after the check of the addresses.
  pub match_host : List ℕ → Profile → Request → Bool → Check → Files → Matched
  match_host autos dp rq empty check w = elim rq.hostname [
    | none ↦ record { result = empty; check = check; files = w }
    | some host ↦
        (let c = hostlist_check P sys autos dp.lists w.hostlists host rq.no_subdom true in
          if is_some dp.lists.hostlist_auto || empty
          then record { result = true; check = check; files = w }
          else record {
            result = c.result;
            check = record { done = true; result = c.result; excluded = c.excluded };
            files = record w { hostlists = c.files };
          })
  ]

  pub match_addresses : List ℕ → Profile → Request → Check → Files → Matched
  match_addresses autos dp rq check w =
      let empty = hostlists_empty dp w in
      let a = ipset_check K sys pton dp.ipsets w.ipsets rq.ends in
      let w' = record w { ipsets = a.1 } in
      if not (is_some dp.lists.hostlist_auto) && not (is_some rq.hostname) && not empty
      then record { result = false; check = check; files = w }
      else if a.0
      then match_host autos dp rq empty check w'
      else record { result = false; check = check; files = w' }

  pub dp_match : List ℕ → Profile → Request → Check → Files → Matched
  dp_match autos dp rq check w =
      let r = hostlists_reload_check_for_profile P sys autos dp.lists w.hostlists in
      let w' = record w { hostlists = r.1 } in
      let check' = record check { done = false } in
      if r.0 && filters_match dp rq
      then match_addresses autos dp rq check' w'
      else record { result = false; check = check'; files = w' }

  -- The profile that is found is told by its place in the list.
  pub record DpFound : Type 0 where
    pub profile : Option ℕ
    pub check : Check
    pub files : Files

  pub find_loop : List ℕ → List Profile → Request → Check → Files → DpFound
  find_loop autos [] rq check w = record { profile = none; check = check; files = w }
  find_loop autos (dp ∷ dps) rq check w =
      let m = dp_match autos dp rq check w in
      let rest = find_loop autos dps rq m.check m.files in
      if m.result
      then record { profile = some 0; check = m.check; files = m.files }
      else record rest { profile = next rest.profile }

  pub dp_find : List ℕ → List Profile → Request → Check → Files → DpFound
  dp_find autos profiles rq check w = find_loop autos profiles rq (record check { done = false }) w
