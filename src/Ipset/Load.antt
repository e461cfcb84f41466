-- ===== src/Ipset/Load.antt =====
-- nfq2/ipset.c: the lines of a list of addresses, from `addpool` to `IpsetsReloadCheck`, and `IpsetCheck`.
-- The counters of addresses in the log are left out.
pub mod Lines
pub mod Fixed
use prizma.Base.{
  ℕ, zero, suc, ◌+◌, ◌/◌, Bool, true, false, not, ◌&&◌, Option, none, some, List, [], ◌∷◌, ltb,
  ◌==◌, if◌then◌else◌, length, take,
}
use prizma.Filter.{Cidr, parse_cidr}
use prizma.Hostlist.Load.{
  System, skip_blank, skip_line, skip_eols, is_host_end, has_host, lines, unopened, unzipped,
  zip_failed, file_mod_compare,
}
use prizma.Ipset.{Trees, Ipset, IpsetFile, Sides, kavl_bit_add, no_ipset, ipset_check_lists}

-- The token that a line begins with, and what is after it.
pub record Token : Type 0 where
  pub token : List ℕ
  pub rest : List ℕ

pub take_token : List ℕ → Token
take_token [] = record { token = []; rest = [] }
take_token (c ∷ s) = elim (is_host_end c) [
  | true ↦ record { token = []; rest = c ∷ s }
  | false ↦ (let t = take_token s in record { token = c ∷ t.token; rest = t.rest })
]

-- `inet_pton` of both families.
pub record Pton : Type 0 where
  pub pton4 : List ℕ → Option (List ℕ)
  pub pton6 : List ℕ → Option (List ℕ)

pub record ProfileIpsets : Type 0 where
  pub ips_collection : List ℕ
  pub ips_collection_exclude : List ℕ

-- PROFILE_IPSETS_ABSENT
unfoldable pub ipsets_absent : ProfileIpsets → Bool
ipsets_absent dp = elim dp.ips_collection [
  | _ ∷ _ ↦ false
  | [] ↦ elim dp.ips_collection_exclude [ _ ∷ _ ↦ false | [] ↦ true ]
]

module _ (K : Trees) (sys : System) (pton : Pton) where
  pub record Added : Type 0 where
    pub result : Bool
    pub ipset : Ipset K
    pub rest : List ℕ

  -- `ipset4Add` and `ipset6Add` with `ipset_kavl_add`; the prefix is within the address.
  pub kavl_add : K.T → Cidr → ℕ → Bool × K.T
  kavl_add t c bits =
      let bytelen = (c.preflen + 7) / 8 in
      if ltb bits c.preflen
      then (false, t)
      else if sys.memory (take bytelen c.addr)
      then (true, kavl_bit_add K t (record { data' = take bytelen c.addr; bitlen = c.preflen }))
      else (false, t)

  pub add_cidr : Ipset K → List ℕ → Bool × Ipset K
  add_cidr ips cidr = elim (parse_cidr pton.pton4 32 cidr) [
    | some c4 ↦
        (let r = kavl_add ips.ips4 c4 32 in
          if r.0 then (true, record ips { ips4 = r.1 }) else (false, no_ipset K))
    | none ↦ elim (parse_cidr pton.pton6 128 cidr) [
      | some c6 ↦
          (let r = kavl_add ips.ips6 c6 128 in
            if r.0 then (true, record ips { ips6 = r.1 }) else (false, no_ipset K))
      | none ↦ (true, ips)
    ]
  ]

  -- A token is cut to the 127 bytes of the buffer.
  pub addpool : Ipset K → List ℕ → Added
  addpool ips s =
      let t = skip_blank s in
      let k = take_token t in
      let r = add_cidr ips (take 127 k.token) in
      if has_host t
      then (if r.0
          then record { result = true; ipset = r.1; rest = skip_eols (skip_line k.rest) }
          else record { result = false; ipset = r.1; rest = t })
      else record { result = true; ipset = ips; rest = skip_eols (skip_line t) }

  pub append_ipset_item : Ipset K → List ℕ → Bool × Ipset K
  append_ipset_item ips s = let a = addpool ips s in (a.result, a.ipset)

  -- `while(p<e)`, as often as fuel allows.
  pub add_all : ℕ → Ipset K → List ℕ → Option (Bool × Ipset K)
  add_all k ips [] = some (true, ips)
  add_all zero ips (c ∷ s) = none
  add_all (suc k) ips (c ∷ s) =
      let a = addpool ips (c ∷ s) in
      let rest = add_all k a.ipset a.rest in if a.result then rest else some (false, a.ipset)

  add_lines : Ipset K → List (List ℕ) → Bool × Ipset K
  add_lines ips [] = (true, ips)
  add_lines ips (l ∷ ls) =
      let a = addpool ips l in
      let rest = add_lines a.ipset ls in if a.result then rest else (false, a.ipset)

  -- What the end of an unzipped buffer that is never reached would leave; it always is.
  or_unchanged : Ipset K → Option (Bool × Ipset K) → Bool × Ipset K
  or_unchanged ips none = (false, ips)
  or_unchanged ips (some r) = r

  pub append_ipset : Ipset K → List ℕ → Bool × Ipset K
  append_ipset ips filename = elim (sys.contents filename) [
    | unopened ↦ (false, ips)
    | zip_failed ↦ (false, ips)
    | unzipped buf ↦ or_unchanged ips (add_all (length buf) ips buf)
    | lines ls failed ↦ (let r = add_lines ips ls in (r.0 && not failed, r.1))
  ]

  load_ipset : IpsetFile K → Bool × IpsetFile K
  load_ipset hfile = elim hfile.filename [
    | none ↦ (true, hfile)
    | some filename ↦ elim (sys.file_mod_signature filename) [
      | none ↦ (true, hfile)
      | some fsig ↦
          (let r = append_ipset (no_ipset K) filename in
            if file_mod_compare hfile.mod_sig fsig
            then (true, hfile)
            else if not (sys.file_open_test filename)
            then (true, hfile)
            else if r.0
            then (true, record hfile { ipset = r.1; mod_sig = fsig })
            else (false, record hfile { ipset = no_ipset K }))
    ]
  ]

  load_at : ℕ → List (IpsetFile K) → Bool × List (IpsetFile K)
  load_at i [] = (true, [])
  load_at zero (f ∷ fs) = let r = load_ipset f in (r.0, r.1 ∷ fs)
  load_at (suc i) (f ∷ fs) = let r = load_at i fs in (r.0, f ∷ r.1)

  pub ipsets_reload_check : List ℕ → List (IpsetFile K) → Bool × List (IpsetFile K)
  ipsets_reload_check [] files = (true, files)
  ipsets_reload_check (i ∷ is) files =
      let r = load_at i files in
      let rest = ipsets_reload_check is r.1 in if r.0 then rest else (false, r.1)

  pub ipsets_reload_check_for_profile :
      ProfileIpsets → List (IpsetFile K) → Bool × List (IpsetFile K)
  ipsets_reload_check_for_profile dp files =
      let a = ipsets_reload_check dp.ips_collection files in
      let b = ipsets_reload_check dp.ips_collection_exclude a.1 in if a.0 then b else a

  -- `IpsetCheck` with `IpsetCheck_`, which makes the same check for a reload.
  unfoldable pub ipset_check :
      ProfileIpsets → List (IpsetFile K) → Sides K → Bool × List (IpsetFile K)
  ipset_check dp files e =
      let r = ipsets_reload_check_for_profile dp files in
      if ipsets_absent dp
      then (true, files)
      else if r.0
      then (ipset_check_lists K r.1 dp.ips_collection dp.ips_collection_exclude e, r.1)
      else (false, r.1)
