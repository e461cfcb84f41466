-- ===== src/Profile/First/Tests.antt =====
-- A search over three profiles.
use prizma.Base.{ℕ, ◌≡◌, refl, true, false, none, some, List, [], ◌∷◌}
use prizma.Hostlist.Load.{System, unopened}
use prizma.Hostlist.Load.Fixed.{hostlists_reload_check-fixed}
use prizma.Ipset.Load.Fixed.{ipsets_reload_check-none}
use prizma.Hostlist.Table.{functions}
use prizma.Ipset.Load.{Pton}
use prizma.Ipset.Sorted.{element_lists}
use prizma.Profile.{Profile, Request, Files, Check, dp_find}
use prizma.Profile.Wins.{IsSteady}
use prizma.Profile.First.{FirstWin, dp_find-FirstWin}

abbrev quiet : System
quiet = record {
  memory = λ s. true;
  file_mod_signature = λ s. none;
  file_open_test = λ s. false;
  contents = λ s. unopened;
}

abbrev no_pton : Pton
no_pton = record { pton4 = λ s. none; pton6 = λ s. none }

-- The port, and a list of one name.
abbrev profile_of : ℕ → List ℕ → Profile
profile_of port lists = record {
  filter_ipv4 = true;
  filter_ipv6 = true;
  pf_tcp = record { from = port; to = port; neg = false } ∷ [];
  pf_udp = [];
  icf = [];
  ipf = [];
  filter_l7 = 0;
  filter_ssid = [];
  ipsets = record { ips_collection = []; ips_collection_exclude = [] };
  lists = record { hl_collection = lists; hl_collection_exclude = []; hostlist_auto = none };
}

abbrev profiles : List Profile
profiles = profile_of 80 [] ∷ profile_of 443 (0 ∷ []) ∷ profile_of 443 [] ∷ []

abbrev asked : Request functions element_lists quiet no_pton
asked = record {
  l3proto = 6;
  ends = record { ipv4 = some (10 ∷ 0 ∷ 0 ∷ 1 ∷ []); ipv6 = none; ipv4r = none; ipv6r = none };
  port = 443;
  icmp_type = 255;
  icmp_code = 255;
  hostname = some (b'x' ∷ []);
  no_subdom = false;
  l7proto = 1;
  ssid = none;
}

abbrev on_disk : Files functions element_lists quiet no_pton
on_disk = record {
  hostlists =
      record {
        filename = none;
        mod_sig = record { mod_time = 0; size = 0 };
        hostlist = functions.add functions.null (b'x' ∷ []) 0;
      }
      ∷ [];
  ipsets = [];
}

abbrev unchecked : Check functions element_lists quiet no_pton
unchecked = record { done = false; result = false; excluded = false }

steady : (dp : Profile) → IsSteady functions element_lists quiet no_pton [] asked on_disk dp
steady dp = record {
  hostlists = hostlists_reload_check-fixed functions quiet dp.lists on_disk.hostlists (refl, tt);
  ipsets = ipsets_reload_check-none element_lists quiet no_pton dp.ipsets;
}

dp_find-FirstWin_example :
    FirstWin functions element_lists quiet no_pton [] asked on_disk profiles
      (dp_find functions element_lists quiet no_pton [] profiles asked unchecked on_disk).profile
    × ((dp_find functions element_lists quiet no_pton [] profiles asked unchecked on_disk).files
        ≡ on_disk)
dp_find-FirstWin_example =
    dp_find-FirstWin functions element_lists quiet no_pton [] asked on_disk profiles unchecked (
      steady (profile_of 80 []),
      (steady (profile_of 443 (0 ∷ [])), (steady (profile_of 443 []), tt)),
    )
