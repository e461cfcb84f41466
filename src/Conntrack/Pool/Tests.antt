-- ===== src/Conntrack/Pool/Tests.antt =====
-- The pool over a table that is a function from connections.
use prizma.Base.{
  ◌≡◌, ◌≢◌, ap, refl, inl, inr, Bool, true, false, not, Option, none, some, [], if◌then◌else◌,
  arith,
}
use prizma.Conntrack.{Packet, Track, init_track}
use prizma.Conntrack.Pool.{
  Conn, Table, connswap, extract_conn, extract_l4, extract_ports, Limits, double_search_conn,
  double_search, feed, drop_found,
}
use prizma.Conntrack.Pool.Twins.{
  Conn-discrete, NoTwins, add-NoTwins, Yields, can_open, feed-search, search-reply,
}
use prizma.Conntrack.Pool.Removal.{drop_found-search}

abbrev put : (Conn → Option Track) → Conn → Option Track → Conn → Option Track
put t c v d = elim (Conn-discrete c d) [ yes _ ↦ v | no _ ↦ t d ]

put-same : (t : Conn → Option Track) (c : Conn) (v : Option Track) → put t c v c ≡ v
put-same t c v = elim (Conn-discrete c c) as (λ x. elim x [ yes _ ↦ v | no _ ↦ t c ] ≡ v) [
  | yes _ ↦ refl
  | no n ↦ absurd (n refl)
]

put-other : (t : Conn → Option Track) (c d : Conn) (v : Option Track) → c ≢ d → put t c v d ≡ t d
put-other t c d v n = elim (Conn-discrete c d) as (λ x. elim x [ yes _ ↦ v | no _ ↦ t d ] ≡ t d) [
  | yes q ↦ absurd (n q)
  | no _ ↦ refl
]

abbrev sifted : (Conn → Track → Bool) → Conn → Option Track → Option Track
sifted p c none = none
sifted p c (some v) = if p c v then none else some v

abbrev swept : (Conn → Track → Bool) → (Conn → Option Track) → Conn → Option Track
swept p t c = sifted p c (t c)

abbrev functions : Table
functions = record {
  T = Conn → Option Track;
  find = λ t c. t c;
  add = λ t c v. put t c (some v);
  set = λ t c v. put t c (some v);
  del = λ t c. put t c none;
  sweep = swept;
  find-add = λ t c v. put-same t c (some v);
  find-add_other = λ t c d v n. put-other t c d (some v) n;
  find-set = λ t c u v e. put-same t c (some v);
  find-set_other = λ t c d v n. put-other t c d (some v) n;
  find-del = λ t c. put-same t c none;
  find-del_other = λ t c d n. put-other t c d none n;
  find-sweep_none = λ p t c e. rw e refl;
  find-sweep = λ p t c v e. rw e refl;
}

abbrev conn : Conn
conn = record { src = 1; dst = 2; sport = 1000; dport = 443; l3proto = 0; l4proto = 6 }

conn-two : conn ≢ connswap conn
unfolding connswap
conn-two e = absurd (omega (arith, ap (λ (c : Conn). c.src) e))

abbrev nothing : Conn → Option Track
nothing c = none

-- A pool with one connection.
abbrev pool : Conn → Option Track
pool = put nothing conn (some init_track)

pool-NoTwins : NoTwins functions pool
pool-NoTwins =
    add-NoTwins functions nothing conn init_track refl refl (record { at = λ c. inr (inl refl) })

abbrev packet : Packet
packet = record {
  ip = some (record { src = 1; dst = 2 });
  ip6 = none;
  tcp =
      some (record {
        sport = 1000;
        dport = 443;
        seq = 7;
        ack = 0;
        flags = 2;
        win = 100;
        options = [];
      });
  udp = none;
  len_payload = 0;
}

packet-conn : extract_conn false packet ≡ some conn
unfolding extract_conn extract_l4 extract_ports
packet-conn = refl

feed-search_example :
    Yields
      (λ f t'. (double_search functions t' packet ≡ some f) × NoTwins functions t')
      ((double_search functions pool packet ≡ none) × (can_open functions true packet ≡ false))
      (feed functions true (record { sec = 9; nsec = 0 }) pool packet)
feed-search_example =
    feed-search functions true (record { sec = 9; nsec = 0 }) pool packet conn packet-conn
      pool-NoTwins conn-two

search-reply_example :
    double_search_conn functions pool (connswap conn)
    ≡ elim (double_search_conn functions pool conn) [
      | none ↦ none
      | some f ↦ some (record f { reverse = not f.reverse })
    ]
search-reply_example = search-reply functions pool conn pool-NoTwins conn-two

drop_found-search_example :
    (double_search functions (drop_found functions pool packet).1 packet ≡ none)
    × NoTwins functions (drop_found functions pool packet).1
    × ((drop_found functions pool packet).0
        ≡ elim (double_search functions pool packet) [ none ↦ false | some _ ↦ true ])
drop_found-search_example =
    drop_found-search functions pool packet conn packet-conn pool-NoTwins conn-two

abbrev limits : Limits
limits = record {
  timeout_syn = 60;
  timeout_established = 300;
  timeout_fin = 60;
  timeout_udp = 60;
  t_purge_interval = 60;
  t_last_purge = 0;
}
