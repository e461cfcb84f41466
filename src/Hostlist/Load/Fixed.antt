-- ===== src/Hostlist/Load/Fixed.antt =====
-- nfq2/hostlist.c: lists that are not read from files, which are never loaded again.
use prizma.Base.{ℕ, zero, suc, ◌≡◌, refl, true, none, List, [], ◌∷◌}
use prizma.Hostlist.{Pools, HostlistFile}
use prizma.Hostlist.Load.{
  System, ProfileLists, load_host_list, load_at, reload_lists, make_autolists_non_empty,
  hostlists_reload_check, reload_both, hostlists_reload_check_for_profile,
}

module _ (P : Pools) (sys : System) where
  abbrev pub AllFixed : List (HostlistFile P) → Type 0
  AllFixed [] = Unit
  AllFixed (f ∷ fs) = (f.filename ≡ none) × AllFixed fs

  load_at-fixed :
      (i : ℕ) (files : List (HostlistFile P))
      → AllFixed files
      → load_at P sys i files ≡ (true, files)
  unfolding load_at load_host_list
  load_at-fixed i [] a = refl
  load_at-fixed zero (f ∷ fs) a = rw a.0 refl
  load_at-fixed (suc i) (f ∷ fs) a = rw (load_at-fixed i fs a.1) refl

  reload_lists-fixed :
      (is : List ℕ) (files : List (HostlistFile P))
      → AllFixed files
      → reload_lists P sys is files ≡ (true, files)
  unfolding reload_lists
  reload_lists-fixed [] files a = refl
  reload_lists-fixed (i ∷ is) files a =
      rw (load_at-fixed i files a, reload_lists-fixed is files a) refl

  pub hostlists_reload_check-fixed :
      (dp : ProfileLists) (files : List (HostlistFile P))
      → AllFixed files
      → hostlists_reload_check_for_profile P sys [] dp files ≡ (true, files)
  unfolding hostlists_reload_check_for_profile reload_both hostlists_reload_check
      make_autolists_non_empty
  hostlists_reload_check-fixed dp files a =
      rw
        (
          reload_lists-fixed dp.hl_collection files a,
          reload_lists-fixed dp.hl_collection_exclude files a,
        )
        refl
