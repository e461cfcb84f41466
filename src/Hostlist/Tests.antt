-- ===== src/Hostlist/Tests.antt =====
-- The lists of host names over a table that is a function from texts.
use prizma.Base.{ℕ, ◌≡◌, ◌↔◌, refl, true, false, none, List, [], ◌∷◌}
use prizma.Text.{same_text, strchr}
use prizma.Hostlist.{
  HostlistFile, after_dot, entry_hit, search_loop, search_host_list, search_lists,
  hostlist_collection_is_empty, hostlist_check_lists,
}
use prizma.Hostlist.Domains.{Allows, Listed, hostlist_check_lists-Allows}
use prizma.Hostlist.Table.{functions}

-- The names `b.c` and `^x.c`.
abbrev named : List ℕ
named = b'b' ∷ b'.' ∷ b'c' ∷ []

abbrev strict : List ℕ
strict = b'x' ∷ b'.' ∷ b'c' ∷ []

abbrev listed_files : List (HostlistFile functions)
listed_files =
    record {
      filename = none;
      mod_sig = record { mod_time = 0; size = 0 };
      hostlist = functions.add (functions.add functions.null named 0) strict 1;
    }
    ∷ []

-- `a.b.c`
abbrev sub_host : List ℕ
sub_host = b'a' ∷ b'.' ∷ named

hostlist_check_lists-Allows_example :
    ((((hostlist_check_lists functions listed_files (0 ∷ []) [] sub_host false).0) ≡ true)
      ↔ Allows functions listed_files false sub_host (0 ∷ []) [])
    × ((((hostlist_check_lists functions listed_files (0 ∷ []) [] sub_host false).1) ≡ true)
        ↔ Listed functions listed_files false sub_host [])
hostlist_check_lists-Allows_example =
    hostlist_check_lists-Allows functions listed_files false sub_host (0 ∷ []) []

subdomain_passes :
    hostlist_check_lists functions listed_files (0 ∷ []) [] sub_host false ≡ (true, false)
unfolding hostlist_check_lists search_lists search_host_list search_loop entry_hit after_dot
    hostlist_collection_is_empty same_text strchr
subdomain_passes = refl

strict_subdomain_does_not :
    hostlist_check_lists functions listed_files (0 ∷ []) [] (b'a' ∷ b'.' ∷ strict) false
    ≡ (false, false)
unfolding hostlist_check_lists search_lists search_host_list search_loop entry_hit after_dot
    hostlist_collection_is_empty same_text strchr
strict_subdomain_does_not = refl
