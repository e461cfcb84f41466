-- ===== src/Desync/Limits/Cutoff.antt =====
-- nfq2/desync.c and conntrack.c: the cutoff of a range while packets of one connection are counted.
use mathlib.Core.Path.{subst}
use prizma.Base.{
  ℕ, ◌+◌, ◌^◌, ◌≤◌, ◌<◌, ◌≡◌, ◌∙◌, ap, sym, refl, Bool, true, false, not, ◌&&◌, ◌||◌, some, ltb,
  ◌==◌, if◌then◌else◌, arith,
}
use prizma.Positions.{Time, Position, Positions}
use prizma.Filter.{PacketRange}
use prizma.Conntrack.{Packet, Track, feed_packet}
use prizma.Conntrack.Counts.{
  Counters, counters, both, counted, one_more, restarted, feed_packet-both,
}
use prizma.Desync.Limits.{
  pos_overflow, pos_get, to_reached, check_pos_from, check_pos_to, check_pos_cutoff,
  check_pos_range,
}

and_false : (b : Bool) → (b && false) ≡ false
and_false true = refl
and_false false = refl

-- The modes that count packets, packets with data, and bytes.
pub data Counts : ℕ → Type 0 where
  packets : Counts b'n'
  data_packets : Counts b'd'
  bytes : Counts b'b'

-- The counters of one end, the server's or the client's.
abbrev pub end_counters : Bool → Positions → Counters
end_counters server t = if server then (both t).1 else (both t).0

abbrev pub end_position : Bool → Positions → Position
end_position server t = if server then t.server else t.client

-- What a packet adds to the counters of an end does not wrap.
pub record Unwrapped (n : ℕ) (c : Counters) : Type 0 where
  pub packets_fit : c.packets + 1 < 2 ^ 64
  pub data_packets_fit : c.data_packets + 1 < 2 ^ 64
  pub bytes_fit : c.bytes + n < 2 ^ 64

-- From `t` to `u` by packets of either direction, none of which starts the connection anew.
pub data Feeds (t : Track) : Track → Type 0 where
  none_yet : Feeds t t
  one :
      {u : Track} (now : Time) (reverse : Bool) (p : Packet)
      → Feeds t u
      → restarted u.pos p ≡ false
      → Unwrapped p.len_payload (end_counters reverse u.pos)
      → Feeds t (feed_packet now u reverse p)

record Later (c d : Counters) : Type 0 where
  packets : c.packets ≤ d.packets
  data_packets : c.data_packets ≤ d.data_packets
  bytes : c.bytes ≤ d.bytes

one_more-Later : (n : ℕ) (c : Counters) → Unwrapped n c → Later c (one_more n c)
one_more-Later n c w = record {
  packets = omega (arith, w.packets_fit);
  data_packets = ground (arith, w.data_packets_fit);
  bytes = omega (arith, w.bytes_fit);
}

Later-refl : (c : Counters) → Later c c
Later-refl c = record { packets = omega arith; data_packets = omega arith; bytes = omega arith }

Later-trans : (c d e : Counters) → Later c d → Later d e → Later c e
Later-trans c d e v w = record {
  packets = omega (arith, v.packets, w.packets);
  data_packets = omega (arith, v.data_packets, w.data_packets);
  bytes = omega (arith, v.bytes, w.bytes);
}

-- The counters of an end of a pair.
abbrev pick : Bool → Counters × Counters → Counters
pick server c = if server then c.1 else c.0

counted-Later :
    (server reverse : Bool) (n : ℕ) (c : Counters × Counters)
    → Unwrapped n (pick reverse c)
    → Later (pick server c) (pick server (counted reverse n c))
counted-Later true true n c w = one_more-Later n c.1 w
counted-Later true false n c w = Later-refl c.1
counted-Later false true n c w = Later-refl c.0
counted-Later false false n c w = one_more-Later n c.0 w

feed_packet-Later :
    (server : Bool) (now : Time) (u : Track) (reverse : Bool) (p : Packet)
    → restarted u.pos p ≡ false
    → Unwrapped p.len_payload (end_counters reverse u.pos)
    → Later (pick server (both u.pos)) (pick server (both (feed_packet now u reverse p).pos))
feed_packet-Later server now u reverse p e w =
    subst (λ c. Later (pick server (both u.pos)) (pick server c))
      (sym (feed_packet-both now u reverse p ∙ rw e refl))
      (counted-Later server reverse p.len_payload (both u.pos) w)

Feeds-Later :
    (server : Bool) (t u : Track)
    → Feeds t u
    → Later (pick server (both t.pos)) (pick server (both u.pos))
Feeds-Later server t u none_yet = Later-refl (pick server (both t.pos))
Feeds-Later server t u (one {u = v} now reverse p f e w) =
    Later-trans (pick server (both t.pos)) (pick server (both v.pos))
      (pick server (both (feed_packet now v reverse p).pos)) (Feeds-Later server t v f)
      (feed_packet-Later server now v reverse p e w)

end_position-counters :
    (server : Bool) (t : Positions) → counters (end_position server t) ≡ pick server (both t)
end_position-counters true t = refl
end_position-counters false t = refl

abbrev value : {mode : ℕ} → Counts mode → Counters → ℕ
value packets c = c.packets
value data_packets c = c.data_packets
value bytes c = c.bytes

value-Later : {mode : ℕ} (m : Counts mode) (c d : Counters) → Later c d → value m c ≤ value m d
value-Later packets c d l = l.packets
value-Later data_packets c d l = l.data_packets
value-Later bytes c d l = l.bytes

-- Whether a counter has not passed the limit.
abbrev before : PacketRange → ℕ → Bool
before range v = ltb v range.to.pos || not range.upper_cutoff && v == range.to.pos

check_pos_to-before :
    {mode : ℕ} (m : Counts mode) (range : PacketRange) (d : Position)
    → range.to.mode ≡ mode
    → check_pos_to (some d) range ≡ before range (value m (counters d))
unfolding check_pos_to pos_overflow to_reached pos_get
check_pos_to-before packets range d e = rw e refl
check_pos_to-before data_packets range d e = rw e refl
check_pos_to-before bytes range d e = rw e refl

passed-later :
    (range : PacketRange) (v w : ℕ) → v ≤ w → not (before range v) ≡ true → before range w ≡ false
passed-later range v w le h = ground arith

check_pos_range-out :
    (pos : Position) (range : PacketRange)
    → check_pos_to (some pos) range ≡ false
    → (check_pos_cutoff (some pos) range ≡ true) × (check_pos_range (some pos) range ≡ false)
unfolding check_pos_cutoff check_pos_range
check_pos_range-out pos range e = (rw e refl, rw e (and_false (check_pos_from (some pos) range)))

check_pos_cutoff-not :
    (pos : Position) (range : PacketRange)
    → check_pos_cutoff (some pos) range ≡ not (check_pos_to (some pos) range)
unfolding check_pos_cutoff
check_pos_cutoff-not pos range = refl

-- For a range whose upper limit counts packets, packets with data or bytes: once either end of a
-- connection has passed it, the cutoff stays and no packet of that end is in the range, while packets are
-- fed that do not start the connection anew and whose counters do not wrap.
pub check_pos_cutoff-Feeds :
    (server : Bool) (range : PacketRange) (t u : Track)
    → Counts range.to.mode
    → Feeds t u
    → check_pos_cutoff (some (end_position server t.pos)) range ≡ true
    → (check_pos_cutoff (some (end_position server u.pos)) range ≡ true)
      × (check_pos_range (some (end_position server u.pos)) range ≡ false)
check_pos_cutoff-Feeds server range t u m f h =
    let d = end_position server t.pos in
    let e = end_position server u.pos in
    let later : Later (counters d) (counters e) =
      subst (λ c. Later c (counters e)) (sym (end_position-counters server t.pos))
        (subst (Later (pick server (both t.pos))) (sym (end_position-counters server u.pos))
          (Feeds-Later server t u f)) in
    let was : not (before range (value m (counters d))) ≡ true =
      ap not (sym (check_pos_to-before m range d refl)) ∙ sym (check_pos_cutoff-not d range) ∙ h in
    check_pos_range-out e range (
      check_pos_to-before m range e refl
      ∙ passed-later range (value m (counters d)) (value m (counters e))
          (value-Later m (counters d) (counters e) later) was)
