-- ===== src/Hostlist/Load.antt =====
-- nfq2/hostlist.c: the lines of a list of host names, from `addpool` to `HostlistsReloadCheck`, and
-- `HostlistCheck`. The disk is a parameter; the counters of hosts in the log are left out.
pub mod Lines
pub mod Fixed
pub mod Places
pub mod Written
mod Tests
use prizma.Base.{
  ◌≡◌, refl, ℕ, zero, suc, Bool, true, false, not, ◌&&◌, ◌||◌, Option, none, some, List, [], ◌∷◌,
  ◌==◌, if◌then◌else◌, length,
}
use prizma.Tls.{tolower}
use prizma.Hostlist.{
  Pools, ModSig, HostlistFile, hostlist_pool_add_str_len, pool_at, hostlist_check_lists,
}

is_gap : ℕ → Bool
is_gap c = c == b' ' || c == b'\t'

is_eol : ℕ → Bool
is_eol c = c == b'\r' || c == b'\n'

pub skip_blank : List ℕ → List ℕ
skip_blank [] = []
skip_blank (c ∷ s) = elim (is_gap c) [ true ↦ skip_blank s | false ↦ c ∷ s ]

-- A character that a line with a host does not begin with.
pub is_comment : ℕ → Bool
is_comment c = c == b'#' || c == b';' || c == b'/' || is_eol c

pub is_host_end : ℕ → Bool
is_host_end c = c == 0 || is_gap c || is_eol c

-- The host with its letters lowered, and what is after it.
pub record Host : Type 0 where
  pub host : List ℕ
  pub rest : List ℕ

pub take_host : List ℕ → Host
take_host [] = record { host = []; rest = [] }
take_host (c ∷ s) = elim (is_host_end c) [
  | true ↦ record { host = []; rest = c ∷ s }
  | false ↦ (let h = take_host s in record { host = tolower c ∷ h.host; rest = h.rest })
]

pub skip_line : List ℕ → List ℕ
skip_line [] = []
skip_line (c ∷ s) = elim (c == 0 || is_eol c) [ true ↦ c ∷ s | false ↦ skip_line s ]

pub skip_eols : List ℕ → List ℕ
skip_eols [] = []
skip_eols (c ∷ s) = elim (c == 0 || is_eol c) [ true ↦ skip_eols s | false ↦ c ∷ s ]

-- `if (*p=='^') …`: the text after the mark, and the flags.
pub record Marked : Type 0 where
  pub text : List ℕ
  pub flags : ℕ

strict_mark : List ℕ → Marked
strict_mark [] = record { text = []; flags = 0 }
strict_mark (c ∷ s) =
    if c == b'^' then record { text = s; flags = 1 } else record { text = c ∷ s; flags = 0 }

-- Whether a line has a host.
pub has_host : List ℕ → Bool
has_host [] = false
has_host (c ∷ s) = not (is_comment c)

-- What stat, open and the reading of a file give: the bytes that are unzipped, or the lines that `fgets`
-- returns and whether an error ends them.
pub data Contents : Type 0 where
  unopened : Contents
  unzipped : List ℕ → Contents
  zip_failed : Contents
  lines : List (List ℕ) → Bool → Contents

-- `memory` tells whether there is memory for the entry of a host.
pub record System : Type 0 where
  pub memory : List ℕ → Bool
  pub file_mod_signature : List ℕ → Option ModSig
  pub file_open_test : List ℕ → Bool
  pub contents : List ℕ → Contents

pub file_mod_compare : ModSig → ModSig → Bool
file_mod_compare a b = a.mod_time == b.mod_time && a.size == b.size

-- The names by which a profile that has one refers to its lists.
pub record ProfileLists : Type 0 where
  pub hl_collection : List ℕ
  pub hl_collection_exclude : List ℕ
  pub hostlist_auto : Option ℕ

module _ (P : Pools) (sys : System) where
  -- The result, the pool, and the buffer after the line.
  pub record Added : Type 0 where
    pub result : Bool
    pub pool : P.T
    pub rest : List ℕ

  pub addpool : P.T → List ℕ → Added
  addpool pool s =
      let t = skip_blank s in
      let m = strict_mark t in
      let h = take_host m.text in
      let r = hostlist_pool_add_str_len P (sys.memory h.host) pool h.host m.flags in
      if has_host t
      then (if r.0
          then record { result = true; pool = r.1; rest = skip_eols (skip_line h.rest) }
          else record { result = false; pool = P.null; rest = m.text })
      else record { result = true; pool = pool; rest = skip_eols (skip_line t) }

  pub append_hostlist_item : P.T → List ℕ → Bool × P.T
  append_hostlist_item pool s = let a = addpool pool s in (a.result, a.pool)

  -- `while(p<e)`, as often as fuel allows.
  pub add_all : ℕ → P.T → List ℕ → Option (Bool × P.T)
  add_all k pool [] = some (true, pool)
  add_all zero pool (c ∷ s) = none
  add_all (suc k) pool (c ∷ s) =
      let a = addpool pool (c ∷ s) in
      let rest = add_all k a.pool a.rest in if a.result then rest else some (false, a.pool)

  add_lines : P.T → List (List ℕ) → Bool × P.T
  add_lines pool [] = (true, pool)
  add_lines pool (l ∷ ls) =
      let a = addpool pool l in
      let rest = add_lines a.pool ls in if a.result then rest else (false, a.pool)

  -- What the end of an unzipped buffer that is never reached would leave; it always is.
  or_unchanged : P.T → Option (Bool × P.T) → Bool × P.T
  or_unchanged pool none = (false, pool)
  or_unchanged pool (some r) = r

  pub append_host_list : P.T → List ℕ → Bool × P.T
  append_host_list pool filename = elim (sys.contents filename) [
    | unopened ↦ (false, pool)
    | zip_failed ↦ (false, pool)
    | unzipped buf ↦ or_unchanged pool (add_all (length buf) pool buf)
    | lines ls failed ↦ (let r = add_lines pool ls in (r.0 && not failed, r.1))
  ]

  load_host_list : HostlistFile P → Bool × HostlistFile P
  load_host_list hfile = elim hfile.filename [
    | none ↦ (true, hfile)
    | some filename ↦ elim (sys.file_mod_signature filename) [
      | none ↦ (true, hfile)
      | some fsig ↦
          (let r = append_host_list P.null filename in
            if file_mod_compare hfile.mod_sig fsig
            then (true, hfile)
            else if not (sys.file_open_test filename)
            then (true, hfile)
            else if r.0
            then (true, record hfile { hostlist = r.1; mod_sig = fsig })
            else (false, record hfile { hostlist = P.null }))
    ]
  ]

  -- A change of the file that a place of the list points to.
  pub update_at :
      ℕ → (HostlistFile P → HostlistFile P) → List (HostlistFile P) → List (HostlistFile P)
  update_at i g [] = []
  update_at zero g (f ∷ fs) = g f ∷ fs
  update_at (suc i) g (f ∷ fs) = f ∷ update_at i g fs

  -- `LoadHostList` at a place.
  load_at : ℕ → List (HostlistFile P) → Bool × List (HostlistFile P)
  load_at i [] = (true, [])
  load_at zero (f ∷ fs) = let r = load_host_list f in (r.0, r.1 ∷ fs)
  load_at (suc i) (f ∷ fs) = let r = load_at i fs in (r.0, f ∷ r.1)

  -- `NonEmptyHostlist`: the impossible host `@&()`.
  pub non_empty_hostlist : P.T → Bool × P.T
  non_empty_hostlist pool =
      let s = b'@' ∷ b'&' ∷ b'(' ∷ b')' ∷ [] in
      if P.is_null pool then hostlist_pool_add_str_len P (sys.memory s) pool s 0 else (true, pool)

  -- `autos` are the lists of the profiles that have one.
  make_autolists_non_empty : List ℕ → List (HostlistFile P) → List (HostlistFile P)
  make_autolists_non_empty [] files = files
  make_autolists_non_empty (i ∷ is) files =
      make_autolists_non_empty is
        (update_at i (λ f. record f { hostlist = (non_empty_hostlist f.hostlist).1 }) files)

  reload_lists : List ℕ → List (HostlistFile P) → Bool × List (HostlistFile P)
  reload_lists [] files = (true, files)
  reload_lists (i ∷ is) files =
      let r = load_at i files in
      let rest = reload_lists is r.1 in if r.0 then rest else (false, r.1)

  hostlists_reload_check : List ℕ → List ℕ → List (HostlistFile P) → Bool × List (HostlistFile P)
  hostlists_reload_check autos hostlists files =
      let r = reload_lists hostlists files in
      if r.0 then (true, make_autolists_non_empty autos r.1) else (false, r.1)

  reload_both : List ℕ → ProfileLists → List (HostlistFile P) → Bool × List (HostlistFile P)
  reload_both autos dp files =
      let a = hostlists_reload_check autos dp.hl_collection files in
      let b = hostlists_reload_check autos dp.hl_collection_exclude a.1 in if a.0 then b else a

  pub hostlists_reload_check_for_profile :
      List ℕ → ProfileLists → List (HostlistFile P) → Bool × List (HostlistFile P)
  hostlists_reload_check_for_profile autos dp files = reload_both autos dp files

  -- `HostlistCheck`: the result and what is stored in `excluded`, and the files.
  pub record Checked : Type 0 where
    pub result : Bool
    pub excluded : Bool
    pub files : List (HostlistFile P)

  pub hostlist_check :
      List ℕ → ProfileLists → List (HostlistFile P) → List ℕ → Bool → Bool → Checked
  hostlist_check autos dp files host no_match_subdomains skip_reload_check =
      let r = if skip_reload_check then (true, files) else reload_both autos dp files in
      let c =
        hostlist_check_lists P r.1 dp.hl_collection dp.hl_collection_exclude host
          no_match_subdomains in
      if r.0
      then record { result = c.0; excluded = c.1; files = r.1 }
      else record { result = false; excluded = false; files = r.1 }

  pub hostlist_check-skip :
      (autos : List ℕ) (dp : ProfileLists) (files : List (HostlistFile P)) (host : List ℕ)
      (no_match_subdomains : Bool)
      → let c =
          hostlist_check_lists P files dp.hl_collection dp.hl_collection_exclude host
            no_match_subdomains in
        hostlist_check autos dp files host no_match_subdomains true
        ≡ record { result = c.0; excluded = c.1; files = files }
  unfolding hostlist_check
  hostlist_check-skip autos dp files host no_match_subdomains = refl
