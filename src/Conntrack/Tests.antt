-- ===== src/Conntrack/Tests.antt =====
-- A track in the middle of a connection, and what packets do to it.
use prizma.Base.{◌≡◌, refl, false, none, some, [], ◌∷◌, if◌then◌else◌, arith}
use prizma.Positions.{established, Positions, zero_position, no_time}
use prizma.Conntrack.{Packet, Track, init_track, feed_packet, apply_pos}
use prizma.Conntrack.Options.{Tcp, find_option, tcp_find_option}
use prizma.Conntrack.Options.Found.{Finds, tcp_find_option-Finds}
use prizma.Conntrack.Counts.{both, no_counters, counted, restarted, feed_packet-both}
use prizma.Conntrack.Upper.{Raised, direct, apply_pos-Raised}

-- A segment of 50 bytes, with a no-operation and the MSS 1460 in its options.
abbrev segment : Tcp
segment = record {
  sport = 1000;
  dport = 443;
  seq = 4294967290;
  ack = 5;
  flags = 0x18;
  win = 100;
  options = 1 ∷ 2 ∷ 4 ∷ 5 ∷ 180 ∷ [];
}

abbrev packet : Packet
packet = record {
  ip = some (record { src = 1; dst = 2 });
  ip6 = none;
  tcp = some segment;
  udp = none;
  len_payload = 50;
}

abbrev positions : Positions
positions = record {
  t_last = no_time;
  state = established;
  client = record zero_position { uppos = 4294967290 };
  server = zero_position;
  ipproto = 6;
}

abbrev track : Track
track = record init_track { pos = positions }

tcp_find_option-Finds_example :
    (tcp_find_option segment 2 ≡ find_option 9 segment.options 2)
    × Finds segment.options 2 (tcp_find_option segment 2)
tcp_find_option-Finds_example = tcp_find_option-Finds segment 2 9 (omega arith)

feed_packet-both_example :
    both (feed_packet (record { sec = 9; nsec = 0 }) track false packet).pos ≡ (
      if restarted positions packet
      then (no_counters, no_counters)
      else counted false 50 (both positions))
feed_packet-both_example = feed_packet-both (record { sec = 9; nsec = 0 }) track false packet

apply_pos-Raised_example :
    Raised (direct false positions) (direct false (apply_pos positions false packet segment))
apply_pos-Raised_example = apply_pos-Raised positions false packet segment refl refl (omega arith)
