-- ===== src/Hostlist/Load/Places.antt =====
-- nfq2/hostlist.c: the places of the list of files while its files are changed or loaded.
use prizma.Base.{
  ℕ, zero, suc, ◌<◌, ◌≡◌, ◌∙◌, ap, refl, Bool, false, List, [], ◌∷◌, length, arith, Bool-cases, inl,
  inr,
}
use prizma.Hostlist.{Pools, HostlistFile, pool_at}
use prizma.Hostlist.Load.{
  System, ProfileLists, non_empty_hostlist, update_at, load_at, reload_lists,
  make_autolists_non_empty, hostlists_reload_check, reload_both, hostlist_check,
}

module _ (P : Pools) (sys : System) where
  pub pool_at-update_at :
      (i : ℕ) (g : HostlistFile P → HostlistFile P) (files : List (HostlistFile P)) (pool : P.T)
      → i < length files
      → ((f : HostlistFile P) → (g f).hostlist ≡ pool)
      → pool_at P (update_at P sys i g files) i ≡ pool
  unfolding update_at
  pool_at-update_at i g [] pool h k = absurd (omega arith)
  pool_at-update_at zero g (f ∷ fs) pool h k = k f
  pool_at-update_at (suc i) g (f ∷ fs) pool h k = pool_at-update_at i g fs pool (omega arith) k

  length-update_at :
      (i : ℕ) (g : HostlistFile P → HostlistFile P) (files : List (HostlistFile P))
      → length (update_at P sys i g files) ≡ length files
  unfolding update_at
  length-update_at i g [] = refl
  length-update_at zero g (f ∷ fs) = refl
  length-update_at (suc i) g (f ∷ fs) = ap suc (length-update_at i g fs)

  length-load_at :
      (i : ℕ) (files : List (HostlistFile P)) → length (load_at P sys i files).1 ≡ length files
  unfolding load_at
  length-load_at i [] = refl
  length-load_at zero (f ∷ fs) = refl
  length-load_at (suc i) (f ∷ fs) = ap suc (length-load_at i fs)

  length-reload_lists :
      (is : List ℕ) (files : List (HostlistFile P))
      → length (reload_lists P sys is files).1 ≡ length files
  unfolding reload_lists
  length-reload_lists [] files = refl
  length-reload_lists (i ∷ is) files =
      let r = load_at P sys i files in
      elim (Bool-cases r.0) [
        | inl e ↦ rw e (length-reload_lists is r.1 ∙ length-load_at i files)
        | inr e ↦ rw e (length-load_at i files)
      ]

  length-make_autolists :
      (is : List ℕ) (files : List (HostlistFile P))
      → length (make_autolists_non_empty P sys is files) ≡ length files
  unfolding make_autolists_non_empty
  length-make_autolists [] files = refl
  length-make_autolists (i ∷ is) files =
      let g : HostlistFile P → HostlistFile P =
        λ f. record f { hostlist = (non_empty_hostlist P sys f.hostlist).1 } in
      length-make_autolists is (update_at P sys i g files) ∙ length-update_at i g files

  length-hostlists_reload_check :
      (autos is : List ℕ) (files : List (HostlistFile P))
      → length (hostlists_reload_check P sys autos is files).1 ≡ length files
  unfolding hostlists_reload_check
  length-hostlists_reload_check autos is files =
      let r = reload_lists P sys is files in
      elim (Bool-cases r.0) [
        | inl e ↦ rw e (length-make_autolists autos r.1 ∙ length-reload_lists is files)
        | inr e ↦ rw e (length-reload_lists is files)
      ]

  length-reload_both :
      (autos : List ℕ) (dp : ProfileLists) (files : List (HostlistFile P))
      → length (reload_both P sys autos dp files).1 ≡ length files
  unfolding reload_both
  length-reload_both autos dp files =
      let a = hostlists_reload_check P sys autos dp.hl_collection files in
      elim (Bool-cases a.0) [
        | inl e ↦ rw e (
            length-hostlists_reload_check autos dp.hl_collection_exclude a.1
            ∙ length-hostlists_reload_check autos dp.hl_collection files)
        | inr e ↦ rw e (length-hostlists_reload_check autos dp.hl_collection files)
      ]

  pub length-hostlist_check :
      (autos : List ℕ) (dp : ProfileLists) (files : List (HostlistFile P)) (host : List ℕ)
      (no_match_subdomains : Bool)
      → length (hostlist_check P sys autos dp files host no_match_subdomains false).files
        ≡ length files
  unfolding hostlist_check
  length-hostlist_check autos dp files host no_match_subdomains =
      let r = reload_both P sys autos dp files in
      elim (Bool-cases r.0) [
        | inl e ↦ rw e (length-reload_both autos dp files)
        | inr e ↦ rw e (length-reload_both autos dp files)
      ]
