-- ===== src/Desync/Failures.antt =====
-- nfq2/desync.c: how a profile learns the host names that fail, from `ctrack_stop_retrans_counter` to
-- `process_udp_fail`, with the counters of nfq2/pools.c over an interface for the hash table. What is
-- sent to the log is left out, and of the RST that answers a retransmission only that it is sent.
pub mod Learned
mod Tests
use prizma.Base.{
  ℕ, suc, ◌+◌, ◌^◌, ◌≡◌, Bool, true, false, not, ◌&&◌, ◌||◌, Option, none, some, List, [], ◌∷◌, ltb,
  leb, ◌==◌, if◌then◌else◌, wrap8, wrap32,
}
use prizma.Positions.{State, syn, established, fin, Position, Positions}
use prizma.Helpers.{seq_within}
use prizma.Conntrack.{Track, is_syn}
use prizma.Desync.Limits.{is_retransmission}
use prizma.Desync.Sessions.{tcp_proto}
use prizma.Hostlist.{Pools, ModSig, HostlistFile, hostlist_pool_add_str_len, pool_at}
use prizma.Hostlist.Load.{System, ProfileLists, hostlist_check, update_at}
use prizma.Profile.{is_some}

-- `hostfail_pool`
pub record FailCounter : Type 0 where
  pub counter : ℕ
  pub expire : ℕ

-- What the code relies on of HASH_FIND, HASH_ADD and HASH_DEL, and of a write through the pointer that
-- HASH_FIND returns.
pub record FailPools : Type 1 where
  pub T : Type 0
  pub find : T → List ℕ → Option FailCounter
  pub add : T → List ℕ → FailCounter → T
  pub set : T → List ℕ → FailCounter → T
  pub del : T → List ℕ → T
  pub find-add : (t : T) (s : List ℕ) (v : FailCounter) → find (add t s v) s ≡ some v
  pub find-set :
      (t : T) (s : List ℕ) (u v : FailCounter) → find t s ≡ some u → find (set t s v) s ≡ some v
  pub find-del : (t : T) (s : List ℕ) → find (del t s) s ≡ none

-- The system at a call: the disk, the time, and whether the append to the file of a list succeeds.
pub record Moment : Type 0 where
  pub sys : System
  pub boottime : ℕ
  pub append_to_list_file : Bool

-- The part of a profile that is about failures; `auto` is the place of its own list.
pub record AutoProfile : Type 0 where
  pub lists : ProfileLists
  pub auto : ℕ
  pub fail_threshold : ℕ
  pub fail_time : ℕ
  pub retrans_threshold : ℕ
  pub retrans_maxseq : ℕ
  pub retrans_reset : Bool
  pub udp_in : ℕ
  pub udp_out : ℕ

-- RETRANS_COUNTER_STOP
abbrev pub retrans_counter_stop : ℕ
retrans_counter_stop = 255

pub ctrack_stop_retrans_counter : Track → Track
ctrack_stop_retrans_counter t =
    if t.hostname_ah_check then record t { req_retrans_counter = retrans_counter_stop } else t

-- What `auto_hostlist_retrans` does to an entry: its result, whether the counter of failures of the host
-- is reset, and whether an RST is sent.
pub record Retrans : Type 0 where
  pub fired : Bool
  pub track : Track
  pub resets : Bool
  pub rst : Bool

-- The part after the tests of TCP. `headers` tells whether the packet has those that an answer is made
-- from.
retrans_count : AutoProfile → Bool → Track → Retrans
retrans_count dp headers t =
    let n = wrap8 (t.req_retrans_counter + 1) in
    let counted = record t { req_retrans_counter = n } in
    let stopped = record (ctrack_stop_retrans_counter counted) {
      failure_detect_finalized = true;
    } in
    if leb dp.retrans_threshold n
    then record { fired = true; track = stopped; resets = false; rst = headers && dp.retrans_reset }
    else record { fired = false; track = counted; resets = false; rst = false }

retrans_ignored : Track → Retrans
retrans_ignored t = record { fired = false; track = t; resets = false; rst = false }

pub auto_hostlist_retrans : AutoProfile → ℕ → Bool → Track → Retrans
auto_hostlist_retrans dp proto headers t =
    let c = t.pos.client in
    let is_tcp = proto == tcp_proto in
    let done = record (ctrack_stop_retrans_counter t) { failure_detect_finalized = true } in
    if not (t.hostname_ah_check && not t.failure_detect_finalized)
      || t.req_retrans_counter == retrans_counter_stop
    then retrans_ignored t
    else if is_tcp
        && not (is_syn t.pos.state)
        && not (seq_within c.seq_last c.seq0 (wrap32 (c.seq0 + dp.retrans_maxseq)))
    then record { fired = false; track = done; resets = true; rst = false }
    else if is_tcp && not (is_syn t.pos.state) && not (is_retransmission c)
    then retrans_ignored t
    else retrans_count dp headers t

module _ (P : Pools) (F : FailPools) where
  -- The counters of a profile, and the files of the lists.
  pub record Fails : Type 0 where
    pub counters : F.T
    pub files : List (HostlistFile P)

  pub auto_hostlist_reset_fail_counter : F.T → List ℕ → F.T
  auto_hostlist_reset_fail_counter counters hostname = elim (F.find counters hostname) [
    | some _ ↦ F.del counters hostname
    | none ↦ counters
  ]

  -- `HostFailPoolFind`, `HostFailPoolAdd` and `fail_counter->counter++`: the counter after it.
  pub count_failure : Moment → AutoProfile → F.T → List ℕ → Option (ℕ × F.T)
  count_failure m dp counters hostname = elim (F.find counters hostname) [
    | some f ↦ some (suc f.counter, F.set counters hostname (record f { counter = suc f.counter }))
    | none ↦
        (let expire = m.boottime + dp.fail_time in
          let added = F.add counters hostname (record { counter = 0; expire = expire }) in
          if m.sys.memory hostname
          then some (1, F.set added hostname (record { counter = 1; expire = expire }))
          else none)
  ]

  -- The signature of the file of the list after the append.
  pub signed : Moment → HostlistFile P → ModSig
  signed m f = elim f.filename [
    | none ↦ f.mod_sig
    | some filename ↦ elim (m.sys.file_mod_signature filename) [
      | none ↦ record { mod_time = 0; size = 0 }
      | some sig ↦ sig
    ]
  ]

  -- The host is added to the list of the profile, in memory and on the disk.
  pub learn : Moment → AutoProfile → List (HostlistFile P) → List ℕ → List (HostlistFile P)
  learn m dp files hostname =
      let r =
        hostlist_pool_add_str_len P (m.sys.memory hostname) (pool_at P files dp.auto) hostname 0 in
      if r.0
      then update_at P m.sys dp.auto
          (λ f. record f {
            hostlist = r.1;
            mod_sig = if m.append_to_list_file then signed m f else f.mod_sig;
          })
          files
      else files

  -- Where the threshold is reached.
  pub give_up : Moment → AutoProfile → List ℕ → Fails → F.T → List ℕ → Bool → Fails
  give_up m dp autos w counters hostname no_subdom =
      let c = hostlist_check P m.sys autos dp.lists w.files hostname no_subdom false in
      record {
        counters = F.del counters hostname;
        files = if not c.result && not c.excluded then learn m dp c.files hostname else c.files;
      }

  pub auto_hostlist_failed : Moment → AutoProfile → List ℕ → Fails → List ℕ → Bool → Fails
  auto_hostlist_failed m dp autos w hostname no_subdom =
      elim (count_failure m dp w.counters hostname) [
        | none ↦ w
        | some (n, counters) ↦
            if leb dp.fail_threshold n
            then give_up m dp autos w counters hostname no_subdom
            else record w { counters = counters }
      ]

  -- The entry of a connection and what a profile knows.
  pub record Known : Type 0 where
    pub track : Track
    pub fails : Fails

  retrans_fail_host : Moment → AutoProfile → List ℕ → ℕ → Bool → Known → List ℕ → Known
  retrans_fail_host m dp autos proto headers k hostname =
      let r = auto_hostlist_retrans dp proto headers k.track in
      let w = k.fails in
      let reset = record w { counters = auto_hostlist_reset_fail_counter w.counters hostname } in
      record {
        track = r.track;
        fails =
            if r.fired
            then auto_hostlist_failed m dp autos w hostname k.track.hostname_is_ip
            else if r.resets
            then reset
            else w;
      }

  -- `server` is the mode in which no host is learned.
  pub process_retrans_fail : Bool → Moment → AutoProfile → List ℕ → ℕ → Bool → Known → Known
  process_retrans_fail server m dp autos proto headers k = elim k.track.hostname [
    | none ↦ k
    | some hostname ↦
        (let r = retrans_fail_host m dp autos proto headers k hostname in
          if server || not (is_some k.track.dp) then k else r)
  ]

  udp_fail_host : Moment → AutoProfile → List ℕ → Positions → Known → List ℕ → Known
  udp_fail_host m dp autos tpos k hostname =
      let done = record k.track { failure_detect_finalized = true } in
      let w = k.fails in
      if ltb dp.udp_in tpos.server.pcounter
      then record {
        track = done;
        fails = record w { counters = auto_hostlist_reset_fail_counter w.counters hostname };
      }
      else if leb dp.udp_out tpos.client.pcounter
      then record {
        track = done;
        fails = auto_hostlist_failed m dp autos w hostname k.track.hostname_is_ip;
      }
      else k

  pub process_udp_fail : Bool → Moment → AutoProfile → List ℕ → Option Positions → Known → Known
  process_udp_fail server m dp autos tpos k = elim k.track.hostname [
    | none ↦ k
    | some hostname ↦
        (let pos : Positions = elim tpos [ none ↦ k.track.pos | some p ↦ p ] in
          let r = udp_fail_host m dp autos pos k hostname in
          if not server
            && is_some k.track.dp
            && k.track.hostname_ah_check
            && not k.track.failure_detect_finalized
            && not (dp.udp_out == 0)
          then r
          else k)
  ]
