-- ===== src/Desync/Limits/Tests.antt =====
-- Runs of the limits.
use prizma.Base.{◌≡◌, refl, true, false, none, some, arith}
use prizma.Positions.{no_time, zero_position}
use prizma.Filter.{PacketRange, packet_pos_always}
use prizma.Conntrack.{Packet, Track, init_track, feed_packet}
use prizma.Desync.Limits.{
  pos_overflow, pos_get, to_reached, check_pos_to, check_pos_cutoff, check_pos_range,
}
use prizma.Desync.Limits.Cutoff.{
  packets, Feeds, none_yet, one, end_position, check_pos_cutoff-Feeds,
}

-- The first two packets.
abbrev first_two : PacketRange
first_two = record {
  from = packet_pos_always;
  to = record { mode = b'n'; pos = 2 };
  upper_cutoff = false;
}

abbrev datagram : Packet
datagram = record {
  ip = none;
  ip6 = none;
  tcp = none;
  udp = some (record { sport = 1; dport = 53 });
  len_payload = 20;
}

abbrev third : Track
third = record init_track {
  pos = record init_track.pos { client = record zero_position { pcounter = 3 } };
}

abbrev fourth : Track
fourth = feed_packet no_time third false datagram

third_out : check_pos_cutoff (some third.pos.client) first_two ≡ true
unfolding check_pos_cutoff check_pos_to pos_overflow to_reached pos_get
third_out = refl

fourth_follows : Feeds third fourth
fourth_follows =
    one no_time false datagram none_yet refl (record {
      packets_fit = omega arith;
      data_packets_fit = omega arith;
      bytes_fit = omega arith;
    })

check_pos_cutoff-Feeds_example :
    (check_pos_cutoff (some (end_position false fourth.pos)) first_two ≡ true)
    × (check_pos_range (some (end_position false fourth.pos)) first_two ≡ false)
check_pos_cutoff-Feeds_example =
    check_pos_cutoff-Feeds false first_two third fourth packets fourth_follows third_out
