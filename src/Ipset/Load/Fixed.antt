-- ===== src/Ipset/Load/Fixed.antt =====
-- nfq2/ipset.c: profiles where there is no list of addresses to load.
use prizma.Base.{ℕ, ◌≡◌, refl, true, List, [], ◌∷◌}
use prizma.Hostlist.Load.{System}
use prizma.Ipset.{Trees}
use prizma.Ipset.Load.{
  Pton, ProfileIpsets, load_at, ipsets_reload_check, ipsets_reload_check_for_profile,
}

module _ (K : Trees) (sys : System) (pton : Pton) where
  reload_check-none : (is : List ℕ) → ipsets_reload_check K sys pton is [] ≡ (true, [])
  unfolding ipsets_reload_check load_at
  reload_check-none [] = refl
  reload_check-none (i ∷ is) = rw (reload_check-none is) refl

  pub ipsets_reload_check-none :
      (dp : ProfileIpsets) → ipsets_reload_check_for_profile K sys pton dp [] ≡ (true, [])
  unfolding ipsets_reload_check_for_profile
  ipsets_reload_check-none dp =
      rw (reload_check-none dp.ips_collection, reload_check-none dp.ips_collection_exclude) refl
