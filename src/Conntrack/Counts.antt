-- ===== src/Conntrack/Counts.antt =====
-- nfq2/conntrack.c: the counters in `ConntrackFeedPacket` and what erases them.
use prizma.Base.{
  ℕ, ◌+◌, ◌≡◌, ◌∙◌, ap₂, refl, Bool, true, false, not, ◌&&◌, ◌||◌, none, some, if◌then◌else◌, ◌==◌,
  sub32, wrap64, Bool-cases, Option-cases, inl, inr,
}
use Prim.Native.Nat.{bit_and}
use prizma.Positions.{State, Time, Position, Positions}
use prizma.Conntrack.{
  Packet, Track, Ends, count, count_packet, is_syn, window, upper, over_2g, apply_ends, init_track,
  tcp_state, apply_pos, stamp, feed_packet,
}
use prizma.Conntrack.Options.{Tcp, tcp_syn_segment, tcp_synack_segment}

-- Packets, data packets and bytes.
pub record Counters : Type 0 where
  pub packets : ℕ
  pub data_packets : ℕ
  pub bytes : ℕ

abbrev pub counters : Position → Counters
counters d = record { packets = d.pcounter; data_packets = d.pdcounter; bytes = d.pbcounter }

abbrev pub no_counters : Counters
no_counters = record { packets = 0; data_packets = 0; bytes = 0 }

window-counters : (s : State) (d : Position) (tcp : Tcp) → counters (window s d tcp) ≡ counters d
unfolding window
window-counters s d tcp = elim (Bool-cases (is_syn s)) [ inl e ↦ rw e refl | inr e ↦ rw e refl ]

upper-counters : (s : State) (n : ℕ) (d : Position) → counters (upper s n d) ≡ counters d
unfolding upper
upper-counters s n d = elim (Bool-cases (is_syn s)) [
  | inl e ↦ rw e refl
  | inr e ↦ elim (Bool-cases (n == 0)) [ inl z ↦ rw (e, z) refl | inr z ↦ rw (e, z) refl ]
]

apply_ends-direct :
    (s : State) (p : Packet) (tcp : Tcp) (e : Ends)
    → counters (apply_ends s p tcp e).direct ≡ counters e.direct
unfolding apply_ends over_2g
apply_ends-direct s p tcp e = upper-counters s p.len_payload _ ∙ window-counters s _ tcp

apply_ends-reverse :
    (s : State) (p : Packet) (tcp : Tcp) (e : Ends)
    → counters (apply_ends s p tcp e).reverse ≡ counters e.reverse
unfolding apply_ends over_2g
apply_ends-reverse s p tcp e = refl

-- The counters of both ends.
abbrev pub both : Positions → Counters × Counters
both t = (counters t.client, counters t.server)

apply_pos-both :
    (t : Positions) (reverse : Bool) (p : Packet) (tcp : Tcp)
    → both (apply_pos t reverse p tcp) ≡ both t
unfolding apply_pos
apply_pos-both t true p tcp =
    let e : Ends = record { direct = t.server; reverse = t.client } in
    ap₂ (λ a b. (a, b)) (apply_ends-reverse t.state p tcp e) (apply_ends-direct t.state p tcp e)
apply_pos-both t false p tcp =
    let e : Ends = record { direct = t.client; reverse = t.server } in
    ap₂ (λ a b. (a, b)) (apply_ends-direct t.state p tcp e) (apply_ends-reverse t.state p tcp e)

-- Whether the entry is erased: by a SYN outside of the SYN stage, or there by an answer to another SYN.
abbrev pub restarts : Positions → Tcp → Bool
restarts t tcp =
    not (is_syn t.state)
    && (tcp_syn_segment tcp || tcp_synack_segment tcp && not (t.client.seq0 == sub32 tcp.ack 1))

tcp_state-both :
    (t : Track) (reverse : Bool) (tcp : Tcp)
    → both (tcp_state t reverse tcp).pos
      ≡ (if restarts t.pos tcp then (no_counters, no_counters) else both t.pos)
unfolding tcp_state init_track
tcp_state-both t reverse tcp = elim (Bool-cases (tcp_syn_segment tcp)) [
  | inl e ↦ elim (Bool-cases (is_syn t.pos.state)) [
    | inl s ↦ rw (e, s) refl
    | inr s ↦ rw (e, s) refl
  ]
  | inr e ↦ elim (Bool-cases (tcp_synack_segment tcp)) [
    | inl a ↦ elim (Bool-cases (is_syn t.pos.state)) [
      | inl s ↦ rw (e, a, s) refl
      | inr s ↦ elim (Bool-cases (t.pos.client.seq0 == sub32 tcp.ack 1)) [
        | inl q ↦ rw (e, a, s, q) refl
        | inr q ↦ rw (e, a, s, q) refl
      ]
    ]
    | inr a ↦ elim (Bool-cases (bit_and tcp.flags 5 == 0)) [
      | inr c ↦ elim (Bool-cases (is_syn t.pos.state)) [
        | inl s ↦ rw (e, a, c, s) refl
        | inr s ↦ rw (e, a, c, s) refl
      ]
      | inl c ↦ elim (Bool-cases (is_syn t.pos.state)) [
        | inl s ↦ rw (e, a, c, s) refl
        | inr s ↦ rw (e, a, c, s) refl
      ]
    ]
  ]
]

-- One more packet with `n` bytes of payload at an end.
abbrev pub one_more : ℕ → Counters → Counters
one_more n c = record {
  packets = wrap64 (c.packets + 1);
  data_packets = wrap64 (c.data_packets + (if n == 0 then 0 else 1));
  bytes = wrap64 (c.bytes + n);
}

abbrev pub counted : Bool → ℕ → Counters × Counters → Counters × Counters
counted reverse n c = if reverse then (c.0, one_more n c.1) else (one_more n c.0, c.1)

count_packet-both :
    (reverse : Bool) (n : ℕ) (t : Positions)
    → both (count_packet reverse n t) ≡ counted reverse n (both t)
unfolding count_packet count
count_packet-both true n t = refl
count_packet-both false n t = refl

count_packet-restarts :
    (reverse : Bool) (n : ℕ) (t : Positions) (tcp : Tcp)
    → restarts (count_packet reverse n t) tcp ≡ restarts t tcp
unfolding count_packet count
count_packet-restarts true n t tcp = refl
count_packet-restarts false n t tcp = refl

abbrev pub restarted : Positions → Packet → Bool
restarted t p = elim p.tcp [ none ↦ false | some tcp ↦ restarts t tcp ]

-- Fed a packet, the counters of the direction that it came in count it, its payload and its bytes, and
-- those of the other direction stay; but where a TCP packet erases the entry, all counters are zero,
-- and that packet itself is not counted.
pub feed_packet-both :
    (now : Time) (t : Track) (reverse : Bool) (p : Packet)
    → both (feed_packet now t reverse p).pos ≡ (
        if restarted t.pos p
        then (no_counters, no_counters)
        else counted reverse p.len_payload (both t.pos))
unfolding feed_packet stamp
feed_packet-both now t reverse p =
    let t1 : Track = record t { pos = count_packet reverse p.len_payload t.pos } in
    elim (Option-cases p.tcp) [
      | inl n ↦ rw n (count_packet-both reverse p.len_payload t.pos)
      | inr (tcp, e) ↦ rw e (
          apply_pos-both (tcp_state t1 reverse tcp).pos reverse p tcp
          ∙ tcp_state-both t1 reverse tcp
          ∙ ap₂ (λ b c. if b then (no_counters, no_counters) else c)
              (count_packet-restarts reverse p.len_payload t.pos tcp)
              (count_packet-both reverse p.len_payload t.pos))
    ]
