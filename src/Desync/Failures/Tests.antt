-- ===== src/Desync/Failures/Tests.antt =====
-- A host that fails three times.
use prizma.Base.{ℕ, true, false, Option, none, some, List, [], ◌∷◌}
use prizma.Hostlist.Load.{unopened}
use prizma.Hostlist.Table.{functions, entry, entry-same, nothing}
use prizma.Desync.Failures.{FailCounter, FailPools, Moment, AutoProfile, Fails}
use prizma.Desync.Failures.Learned.{fail_all}

abbrev fail_tables : FailPools
fail_tables = record {
  T = List ℕ → Option FailCounter;
  find = λ t s. t s;
  add = λ t s v. entry t s (some v);
  set = λ t s v. entry t s (some v);
  del = λ t s. entry t s none;
  find-add = λ t s v. entry-same t s (some v);
  find-set = λ t s u v e. entry-same t s (some v);
  find-del = λ t s. entry-same t s none;
}

abbrev moment : Moment
moment = record {
  sys = record {
    memory = λ s. true;
    file_mod_signature = λ s. none;
    file_open_test = λ s. false;
    contents = λ s. unopened;
  };
  boottime = 1000;
  append_to_list_file = true;
}

abbrev learner : AutoProfile
learner = record {
  lists = record { hl_collection = 0 ∷ []; hl_collection_exclude = []; hostlist_auto = some 0 };
  auto = 0;
  fail_threshold = 3;
  fail_time = 60;
  retrans_threshold = 3;
  retrans_maxseq = 32768;
  retrans_reset = true;
  udp_in = 1;
  udp_out = 4;
}

abbrev unlearned : Fails functions fail_tables
unlearned = record {
  counters = nothing;
  files =
      record {
        filename = some (b'a' ∷ []);
        mod_sig = record { mod_time = 0; size = 0 };
        hostlist = functions.null;
      }
      ∷ [];
}

abbrev blocked : List ℕ
blocked = b'x' ∷ b'.' ∷ b'y' ∷ []

abbrev two_failed : Fails functions fail_tables
two_failed =
    fail_all functions fail_tables learner (0 ∷ []) blocked false (moment ∷ moment ∷ []) unlearned
