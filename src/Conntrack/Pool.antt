-- ===== src/Conntrack/Pool.antt =====
-- nfq2/conntrack.c: the pool of connections. The hash table, a library in C, is an interface here.
pub mod Removal
pub mod Twins
mod Tests
use Prim.Native.Nat.{ℕ, ◌+◌, ◌-◌, ◌≤◌}
use prizma.Base.{
  ◌≡◌, ◌≢◌, Bool, true, false, not, ◌&&◌, ◌||◌, Option, none, some, ltb, leb, ◌==◌, if◌then◌else◌,
  refl,
}
use prizma.Positions.{State, syn, established, fin, Time}
use prizma.Conntrack.{Packet, Track, init_track, feed_packet}
use prizma.Conntrack.Options.{Tcp, tcp_syn_segment, tcp_synack_segment}

-- `t_conn`; an address is its number.
pub record Conn : Type 0 where
  pub src : ℕ
  pub dst : ℕ
  pub sport : ℕ
  pub dport : ℕ
  pub l3proto : ℕ
  pub l4proto : ℕ

abbrev pub ipproto_none : ℕ
ipproto_none = 59

-- What the code relies on of the macros HASH_FIND, HASH_ADD and HASH_DEL, of a write through the
-- pointer that HASH_FIND returns, and of a HASH_ITER that deletes what `drop` says.
pub record Table : Type 1 where
  pub T : Type 0
  pub find : T → Conn → Option Track
  pub add : T → Conn → Track → T
  pub set : T → Conn → Track → T
  pub del : T → Conn → T
  pub sweep : (Conn → Track → Bool) → T → T
  pub find-add : (t : T) (c : Conn) (v : Track) → find (add t c v) c ≡ some v
  pub find-add_other : (t : T) (c d : Conn) (v : Track) → c ≢ d → find (add t c v) d ≡ find t d
  pub find-set : (t : T) (c : Conn) (u v : Track) → find t c ≡ some u → find (set t c v) c ≡ some v
  pub find-set_other : (t : T) (c d : Conn) (v : Track) → c ≢ d → find (set t c v) d ≡ find t d
  pub find-del : (t : T) (c : Conn) → find (del t c) c ≡ none
  pub find-del_other : (t : T) (c d : Conn) → c ≢ d → find (del t c) d ≡ find t d
  pub find-sweep_none :
      (p : Conn → Track → Bool) (t : T) (c : Conn) → find t c ≡ none → find (sweep p t) c ≡ none
  pub find-sweep :
      (p : Conn → Track → Bool) (t : T) (c : Conn) (v : Track)
      → find t c ≡ some v
      → find (sweep p t) c ≡ (if p c v then none else some v)

pub connswap : Conn → Conn
connswap c = record {
  src = c.dst;
  dst = c.src;
  sport = c.dport;
  dport = c.sport;
  l3proto = c.l3proto;
  l4proto = c.l4proto;
}

-- `extract_ports`
pub record Ports : Type 0 where
  pub proto : ℕ
  pub sport : ℕ
  pub dport : ℕ

pub extract_ports : Packet → Ports
extract_ports p = elim p.tcp [
  | some t ↦ record { proto = 6; sport = t.sport; dport = t.dport }
  | none ↦ elim p.udp [
    | some u ↦ record { proto = 17; sport = u.sport; dport = u.dport }
    | none ↦ record { proto = ipproto_none; sport = 0; dport = 0 }
  ]
]

-- The part after the addresses, with the ports in their places.
pub extract_l4 : Bool → Packet → ℕ → ℕ → ℕ → Option Conn
extract_l4 reverse p l3proto src dst =
    let e = extract_ports p in
    let c : Conn = record {
      src = if reverse then dst else src;
      dst = if reverse then src else dst;
      sport = if reverse then e.dport else e.sport;
      dport = if reverse then e.sport else e.dport;
      l3proto = l3proto;
      l4proto = e.proto;
    } in
    if e.proto == ipproto_none then none else some c

pub extract_conn : Bool → Packet → Option Conn
extract_conn reverse p = elim p.ip [
  | some ip ↦ extract_l4 reverse p 0 ip.src ip.dst
  | none ↦ elim p.ip6 [ some ip6 ↦ extract_l4 reverse p 41 ip6.src ip6.dst | none ↦ none ]
]

-- What is found: the key of the entry, its track, and the direction of the packet.
pub record Found : Type 0 where
  pub key : Conn
  pub track : Track
  pub reverse : Bool

pub data Outcome (T : Type 0) : Type 0 where
  accepted : Found → T → Outcome T
  ignored : Outcome T

-- `tcp && tcp_synack_segment(tcp)` and the like.
pub opens : (Tcp → Bool) → Packet → Bool
opens test p = elim p.tcp [ none ↦ false | some tcp ↦ test tcp ]

pub is_udp : Packet → Bool
is_udp p = elim p.udp [ none ↦ false | some _ ↦ true ]

-- `ctr->track.pos.ipproto = proto`, where the packet is TCP, UDP or else IPPROTO_NONE.
pub set_proto : Packet → Track → Track
set_proto p t = record t { pos = record t.pos { ipproto = (extract_ports p).proto } }

-- The pool and its settings.
pub record Limits : Type 0 where
  pub timeout_syn : ℕ
  pub timeout_established : ℕ
  pub timeout_fin : ℕ
  pub timeout_udp : ℕ
  pub t_purge_interval : ℕ
  pub t_last_purge : ℕ

-- The entries that `ConntrackPoolPurge` deletes. A time of C is signed, but the clock does not go back:
-- `t_last` is at most `now`.
pub expired : Limits → ℕ → Conn → Track → Bool
expired p now c t =
    let idle = now - t.pos.t_last.sec in
    let tcp_limit : ℕ = elim t.pos.state [
      | syn ↦ p.timeout_syn
      | established ↦ p.timeout_established
      | fin ↦ p.timeout_fin
    ] in
    t.b_cutoff || c.l4proto == 6 && leb tcp_limit idle || c.l4proto == 17 && leb p.timeout_udp idle

module _ (H : Table) where
  pub search : H.T → Conn → Option Track
  search t c = H.find t c

  pub double_search_conn : H.T → Conn → Option Found
  double_search_conn t c = elim (search t c) [
    | some v ↦ some (record { key = c; track = v; reverse = false })
    | none ↦ elim (search t (connswap c)) [
      | some v ↦ some (record { key = connswap c; track = v; reverse = true })
      | none ↦ none
    ]
  ]

  pub double_search : H.T → Packet → Option Found
  double_search t p = elim (extract_conn false p) [ none ↦ none | some c ↦ double_search_conn t c ]

  -- The new state of an entry, and the label `ok`.
  pub fed : Time → Packet → H.T → Conn → Track → Bool → Outcome H.T
  fed now p t key v reverse =
      let v' = set_proto p (feed_packet now v reverse p) in
      accepted (record { key = key; track = v'; reverse = reverse }) (H.set t key v')

  -- `room` tells whether the memory for a new entry is there.
  pub feed_new : Bool → Time → Packet → H.T → Conn → Outcome H.T
  feed_new room now p t c =
      let synack = opens tcp_synack_segment p in
      let key = if synack then connswap c else c in
      if (opens tcp_syn_segment p || synack || is_udp p) && room
      then fed now p (H.add t key init_track) key init_track synack
      else ignored

  pub feed_conn : Bool → Time → Packet → H.T → Conn → Outcome H.T
  feed_conn room now p t c = elim (double_search_conn t c) [
    | some f ↦ fed now p t f.key f.track f.reverse
    | none ↦ feed_new room now p t c
  ]

  pub feed : Bool → Time → H.T → Packet → Outcome H.T
  feed room now t p = elim (extract_conn false p) [
    | none ↦ ignored
    | some c ↦ feed_conn room now p t c
  ]

  -- Whether there was an entry to drop, and what is left.
  pub drop_found : H.T → Packet → Bool × H.T
  drop_found t p = elim (double_search t p) [ none ↦ (false, t) | some f ↦ (true, H.del t f.key) ]

  -- `now` is what `boottime` returns, 0 when the clock fails.
  pub purge : ℕ → Limits → H.T → Limits × H.T
  purge now p t =
      if now == 0
      then (p, t)
      else if leb p.t_purge_interval (now - p.t_last_purge)
      then (record p { t_last_purge = now }, H.sweep (expired p now) t)
      else (p, t)
