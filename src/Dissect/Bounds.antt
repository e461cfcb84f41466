-- ===== src/Dissect/Bounds.antt =====
-- nfq2/darkmagic.c: the offsets and lengths that `proto_dissect_l3l4` returns.
use prizma.Base.{
  ℕ, ◌+◌, ◌*◌, ◌/◌, ◌%◌, ◌^◌, ◌≤◌, ◌<◌, ◌≡◌, ◌≢◌, ◌⊎◌, inl, inr, refl, Bool, true, false, ◌&&◌,
  ◌||◌, Option, none, some, List, ok, ltb, leb, ◌==◌, if◌then◌else◌, byte_at, length, wrap16, arith,
  Ensures, returns, Ensures-if, Ensures-weaken, Ensures-bind, Ensures-read, read-in_range,
}
use prizma.Bytes.Value.{IsBytes, big_endian, Ensures-pntoh16}
use prizma.Dissect.{
  Dissect, Network, blank, proto_check_ipv4, proto_check_ipv4_payload, proto_skip_ipv4,
  proto_check_tcp, tcp_off, proto_check_udp, proto_check_udp_payload, proto_check_icmp,
  proto_check_ipv6, proto_check_ipv6_payload, proto_skip_ipv6, dissect_ipv4, dissect_ipv6,
  transport, finish, checked, proto_dissect_l3l4,
}
use prizma.Dissect.Ipv6.{EndsBy, proto_skip_ipv6-EndsBy}

-- A header of `n` bytes that ends by `e`, if there is one.
abbrev pub HeaderIn : Option ℕ → ℕ → ℕ → Type 0
HeaderIn none n e = Unit
HeaderIn (some t) n e = t + n ≤ e

-- Everything that a dissection points to lies in the first `len_pkt` bytes, themselves part of the
-- packet of `len` bytes, and the payload is what the two headers leave.
pub record InPacket (len : ℕ) (d : Dissect) : Type 0 where
  pub packet : d.len_pkt ≤ len
  pub payload_end : d.payload + d.len_payload ≤ d.len_pkt
  pub layers : d.payload ≡ d.len_l3 + d.len_l4
  pub sum : d.len_l4 + d.len_payload ≡ d.transport_len
  pub tcp : HeaderIn d.tcp 20 d.payload
  pub udp : HeaderIn d.udp 8 d.payload
  pub icmp : HeaderIn d.icmp 8 d.payload

blank-InPacket : (len : ℕ) → InPacket len (blank len)
blank-InPacket len = record {
  packet = omega arith;
  payload_end = omega arith;
  layers = omega arith;
  sum = refl;
  tcp = tt;
  udp = tt;
  icmp = tt;
}

-- What the network layer hands on.
record Handed (len : ℕ) (n : Network) : Type 0 where
  packet : n.dis.len_pkt ≤ len
  rest : EndsBy n.dis.len_pkt n.skip
  l3 : n.dis.len_l3 ≡ n.skip.at
  no_headers : (n.dis.tcp ≡ none) × (n.dis.udp ≡ none) × (n.dis.icmp ≡ none)

module _ (buf : List ℕ) (bytes : IsBytes buf) (len : ℕ) (le : len ≤ length buf)
    (small : len < 2 ^ 16) where
  -- What the header test establishes.
  abbrev IsIpv4 : Type 0
  IsIpv4 = (20 ≤ len) × (byte_at buf 0 % 16 * 4 ≤ len) × (byte_at buf 0 / 16 ≡ 4)

  proto_check_ipv4-fits : Ensures (λ b. b ≡ true → IsIpv4) (proto_check_ipv4 buf 0 len)
  unfolding proto_check_ipv4
  proto_check_ipv4-fits =
      Ensures-if (ltb len 20) _ _ (λ _. returns (λ e. cc))
        λ ge. Ensures-read buf 0 _ (ground arith) (returns (λ e. ground arith))

  proto_check_ipv6-fits : Ensures (λ b. b ≡ true → 40 ≤ len) (proto_check_ipv6 buf 0 len)
  unfolding proto_check_ipv6
  proto_check_ipv6-fits =
      Ensures-if (leb 40 len) _ _
        (λ ge. Ensures-read buf 0 _ (ground arith) (returns (λ e. ground arith)))
        λ _. returns (λ e. cc)

  proto_skip_ipv4-at :
      (l proto : ℕ)
      → 20 ≤ len
      → l ≤ len
      → byte_at buf 0 % 16 * 4 ≤ l
      → Ensures
          (λ s. (s.at ≡ byte_at buf 0 % 16 * 4) × (s.at + s.len ≡ l))
          (proto_skip_ipv4 buf 0 l proto)
  unfolding proto_skip_ipv4
  proto_skip_ipv4-at l proto ge below fits =
      Ensures-read buf 0 _ (omega arith)
        (Ensures-pntoh16 buf 6 _ bytes (omega arith) (returns (omega arith)))

  dissect_ipv4-Handed :
      20 ≤ len
      → byte_at buf 0 % 16 * 4 ≤ len
      → byte_at buf 0 % 16 * 4 ≤ big_endian buf 2 2
      → Ensures (Handed len) (dissect_ipv4 buf len)
  unfolding dissect_ipv4
  dissect_ipv4-Handed ge fits total =
      let l = if ltb (big_endian buf 2 2) len then big_endian buf 2 2 else len in
      let below : l ≤ len = ground arith in
      Ensures-read buf 9 _ (omega arith) (
        Ensures-pntoh16 buf 2 _ bytes (omega arith) (
          Ensures-bind (proto_skip_ipv4 buf 0 l (byte_at buf 9)) _
            (proto_skip_ipv4-at l (byte_at buf 9) ge below (ground arith))
            (λ s e. returns (record {
              packet = below;
              rest = omega arith;
              l3 = refl;
              no_headers = (refl, refl, refl);
            }))))

  dissect_ipv6-Handed :
      40 ≤ len → big_endian buf 4 2 + 40 ≤ len → Ensures (Handed len) (dissect_ipv6 buf len)
  unfolding dissect_ipv6
  dissect_ipv6-Handed ge fits =
      let iplen = wrap16 (big_endian buf 4 2 + 40) in
      let l = if ltb iplen len then iplen else len in
      let below : l ≤ len = ground arith in
      Ensures-pntoh16 buf 4 _ bytes (omega arith) (
        Ensures-bind (proto_skip_ipv6 buf 0 l) _
          (proto_skip_ipv6-EndsBy buf bytes l (ground arith) (omega arith) (omega arith))
          (λ s e.
            returns
              (record { packet = below; rest = e.0; l3 = refl; no_headers = (refl, refl, refl) })))

  -- What `transport` adds to a dissection without transport headers.
  record Layer (dis : Dissect) (d l : ℕ) (p : Dissect × ℕ) : Type 0 where
    same : (p.0.len_pkt ≡ dis.len_pkt) × (p.0.len_l3 ≡ dis.len_l3)
    fits : p.1 ≤ l
    tcp : HeaderIn p.0.tcp 20 (d + p.1)
    udp : HeaderIn p.0.udp 8 (d + p.1)
    icmp : HeaderIn p.0.icmp 8 (d + p.1)

  module _ (d l : ℕ) (room : d + l ≤ length buf) where
    abbrev tcp_len : ℕ
    tcp_len = byte_at buf (d + 12) / 16 * 4

    proto_check_tcp-fits :
        Ensures (λ b. b ≡ true → (20 ≤ tcp_len) × (tcp_len ≤ l)) (proto_check_tcp buf d l)
    unfolding proto_check_tcp
    proto_check_tcp-fits =
        Ensures-if (ltb l 20) _ _ (λ _. returns (λ e. cc))
          λ ge. Ensures-read buf (d + 12) _ (ground arith) (returns (λ e. ground arith))

    proto_check_udp_payload-safe :
        8 ≤ l → Ensures {A = Bool} (λ b. Unit {0}) (proto_check_udp_payload buf d l)
    unfolding proto_check_udp_payload
    proto_check_udp_payload-safe ge = Ensures-pntoh16 buf (d + 4) _ bytes (omega arith) (returns tt)

    tcp_off-eq : 20 ≤ tcp_len → tcp_len ≤ l → tcp_off buf d ≡ ok tcp_len
    unfolding tcp_off
    tcp_off-eq a b = rw (read-in_range buf (d + 12) (omega arith))

    abbrev NoHeaders : Dissect → Type 0
    NoHeaders dis = (dis.tcp ≡ none) × (dis.udp ≡ none) × (dis.icmp ≡ none)

    module _ (dis : Dissect) (fresh : NoHeaders dis) where
      tcp-Layer : 20 ≤ tcp_len → tcp_len ≤ l → Layer dis d l (record dis { tcp = some d }, tcp_len)
      tcp-Layer a b = record {
        same = (refl, refl);
        fits = b;
        tcp = omega arith;
        udp = rw fresh.1 tt;
        icmp = rw fresh.2 tt;
      }

      udp-Layer : 8 ≤ l → Layer dis d l (record dis { udp = some d }, 8)
      udp-Layer a = record {
        same = (refl, refl);
        fits = a;
        tcp = rw fresh.0 tt;
        udp = omega arith;
        icmp = rw fresh.2 tt;
      }

      icmp-Layer : 8 ≤ l → Layer dis d l (record dis { icmp = some d }, 8)
      icmp-Layer a = record {
        same = (refl, refl);
        fits = a;
        tcp = rw fresh.0 tt;
        udp = rw fresh.1 tt;
        icmp = omega arith;
      }

      no-Layer : Layer dis d l (dis, 0)
      no-Layer = record {
        same = (refl, refl);
        fits = omega arith;
        tcp = rw fresh.0 tt;
        udp = rw fresh.1 tt;
        icmp = rw fresh.2 tt;
      }

      udp_test-fits :
          (npc : Bool)
          → Ensures
              (λ b. b ≡ true → 8 ≤ l)
              (if dis.proto == 17 && leb 8 l
                then (if npc then ok true else proto_check_udp_payload buf d l)
                else ok false)
      udp_test-fits npc =
          Ensures-if (dis.proto == 17 && leb 8 l) _ _
            (λ big.
              Ensures-if npc _ _ (λ _. returns (λ _. ground arith))
                λ _.
                  Ensures-weaken (λ b u e. ground arith)
                    (proto_check_udp_payload-safe (ground arith)))
            (λ _. returns (λ e. cc))

      transport-Layer : (npc : Bool) → Ensures (Layer dis d l) (transport buf npc dis d l)
      unfolding transport proto_check_udp proto_check_icmp
      transport-Layer npc =
          Ensures-bind (if dis.proto == 6 then proto_check_tcp buf d l else ok false) _
            (Ensures-if (dis.proto == 6) _ _ (λ _. proto_check_tcp-fits) (λ _. returns (λ e. cc)))
            λ t is_tcp. Ensures-bind _ _ (udp_test-fits npc) λ u is_udp.
              Ensures-if t _ _
                (λ e.
                  rw (tcp_off-eq (is_tcp e).0 (is_tcp e).1)
                    (returns (tcp-Layer (is_tcp e).0 (is_tcp e).1)))
                λ _.
                  Ensures-if u _ _ (λ e. returns (udp-Layer (is_udp e)))
                    λ _.
                      Ensures-if ((dis.proto == 1 || dis.proto == 58) && leb 8 l) _ _
                        (λ e. returns (icmp-Layer (ground arith))) (λ _. returns no-Layer)

  finish-InPacket :
      (npc : Bool) (n : Network) → Handed len n → Ensures (InPacket len) (finish buf npc n)
  unfolding finish
  finish-InPacket npc n h =
      Ensures-bind _ _
        (Ensures-if n.dis.frag _ _
          (λ _.
            returns
              (no-Layer n.skip.at n.skip.len (omega (arith, h.packet, h.rest)) n.dis h.no_headers))
          (λ _.
            transport-Layer n.skip.at n.skip.len (omega (arith, h.packet, h.rest)) n.dis
              h.no_headers npc))
        λ p y. returns (record {
          packet = omega (arith, h.packet, y.same.0);
          payload_end = omega (arith, h.packet, h.rest, y.fits, y.same.0);
          layers = omega (arith, h.l3, y.same.1);
          sum = omega (arith, y.fits, h.rest, h.packet);
          tcp = y.tcp;
          udp = y.udp;
          icmp = y.icmp;
        })

  header_test-fits :
      Ensures
        (λ b. b ≡ true → IsIpv4)
        (checked (proto_check_ipv4 buf 0 len) false (proto_check_ipv4_payload buf 0 len))
  unfolding checked proto_check_ipv4_payload
  header_test-fits = Ensures-bind (proto_check_ipv4 buf 0 len) _ proto_check_ipv4-fits λ b f.
      Ensures-if b _ _
        (λ e. Ensures-pntoh16 buf 2 _ bytes (omega (arith, (f e).0)) (returns (λ _. f e)))
        (λ _. returns (λ e. cc))

  header6_test-fits :
      Ensures
        (λ b. b ≡ true → (40 ≤ len) × (big_endian buf 4 2 + 40 ≤ len))
        (checked (proto_check_ipv6 buf 0 len) false (proto_check_ipv6_payload buf 0 len))
  unfolding checked proto_check_ipv6_payload
  header6_test-fits = Ensures-bind (proto_check_ipv6 buf 0 len) _ proto_check_ipv6-fits λ b f.
      Ensures-if b _ _
        (λ e.
          Ensures-pntoh16 buf 4 _ bytes (omega (arith, f e)) (returns (λ x. (f e, ground arith))))
        (λ _. returns (λ e. cc))

total_ok : {v : ℕ} {P : Type 0} → (v ≢ 4) ⊎ P → v ≡ 4 → P
total_ok (inl ne) e = absurd (ne e)
total_ok (inr p) e = p

-- Given the `len` bytes of a packet, fewer than 2 ^ 16, that is not of IP version 4 or has a total
-- length of at least the length of its IPv4 header, the dissection with payload checks reads nothing outside the packet, and
-- all the headers, lengths and offsets that it returns lie inside.
pub dissect-InPacket :
    (buf : List ℕ) (len : ℕ)
    → IsBytes buf
    → len ≤ length buf
    → len < 2 ^ 16
    → (byte_at buf 0 / 16 ≢ 4) ⊎ (byte_at buf 0 % 16 * 4 ≤ big_endian buf 2 2)
    → Ensures (InPacket len) (proto_dissect_l3l4 buf len false)
unfolding proto_dissect_l3l4
dissect-InPacket buf len bytes le small total =
    Ensures-bind _ _ (header_test-fits buf bytes len le small) λ v4 f.
      Ensures-if v4 _ _
        (λ e.
          Ensures-bind (dissect_ipv4 buf len) _
            (dissect_ipv4-Handed buf bytes len le small (f e).0 (f e).1 (total_ok total (f e).2))
            (λ n h. finish-InPacket buf bytes len le small false n h))
        λ _. Ensures-bind _ _ (header6_test-fits buf bytes len le small) λ v6 g.
          Ensures-if v6 _ _
            (λ e.
              Ensures-bind (dissect_ipv6 buf len) _
                (dissect_ipv6-Handed buf bytes len le small (g e).0 (g e).1)
                (λ n h. finish-InPacket buf bytes len le small false n h))
            (λ _. returns (blank-InPacket len))
