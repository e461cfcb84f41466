-- ===== src/Dissect.antt =====
-- nfq2/darkmagic.c: `proto_dissect_l3l4` and the checks and skips that it is made of.
-- A pointer into the packet is an offset of `buf`, a null pointer is `none`. Header fields are read
-- from the bytes, multi-byte ones in network order; bit fields are quotients and remainders.
pub mod Bounds
pub mod Ipv6
pub mod Short
mod Tests
use Prim.Native.Nat.{bit_and}
use prizma.Base.{
  ℕ, zero, suc, ◌+◌, ◌-◌, ◌*◌, ◌/◌, ◌%◌, ◌^◌, ◌≡◌, Bool, true, false, not, ◌&&◌, ◌||◌, Option, none,
  some, List, Out, ok, no, fault, ◌>>=◌, ltb, leb, ◌==◌, if◌then◌else◌, read, wrap16, sub64,
}
use prizma.Bytes.{pntoh16}

pub record Dissect : Type 0 where
  pub len_pkt : ℕ
  pub ip : Option ℕ
  pub ip6 : Option ℕ
  pub len_l3 : ℕ
  pub proto : ℕ
  pub tcp : Option ℕ
  pub udp : Option ℕ
  pub icmp : Option ℕ
  pub len_l4 : ℕ
  pub transport_len : ℕ
  pub payload : ℕ
  pub len_payload : ℕ
  pub frag : Bool
  pub frag_off : ℕ

abbrev pub ipproto_tcp : ℕ
ipproto_tcp = 6

abbrev pub ipproto_udp : ℕ
ipproto_udp = 17

abbrev pub ipproto_icmp : ℕ
ipproto_icmp = 1

abbrev pub ipproto_icmpv6 : ℕ
ipproto_icmpv6 = 58

-- After `memset(dis, 0, …)` and the two assignments that follow it.
abbrev pub blank : ℕ → Dissect
blank len = record {
  len_pkt = len;
  ip = none;
  ip6 = none;
  len_l3 = 0;
  proto = 0;
  tcp = none;
  udp = none;
  icmp = none;
  len_l4 = 0;
  transport_len = 0;
  payload = 0;
  len_payload = 0;
  frag = false;
  frag_off = 0;
}

-- The tests of a header return false without a read where the buffer is too short.
pub proto_check_ipv4 : List ℕ → ℕ → ℕ → Out Bool
proto_check_ipv4 buf d len =
    if ltb len 20
    then ok false
    else do b ← read buf d; let off = b % 16 * 4; ok (b / 16 == 4 && leb 20 off && leb off len)

pub proto_check_ipv4_payload : List ℕ → ℕ → ℕ → Out Bool
proto_check_ipv4_payload buf d len = do ip_len ← pntoh16 buf (d + 2); ok (leb ip_len len)

-- What the skips return through their pointers.
pub record Skip : Type 0 where
  pub at : ℕ
  pub len : ℕ
  pub proto : ℕ
  pub frag : Bool
  pub frag_off : ℕ

pub proto_skip_ipv4 : List ℕ → ℕ → ℕ → ℕ → Out Skip
proto_skip_ipv4 buf d len proto = do
  b ← read buf d
  ip_off ← pntoh16 buf (d + 6)
  let off = b % 16 * 4
  ok (record {
    at = d + off;
    len = sub64 len off;
    proto = proto;
    frag = not (bit_and ip_off 0x3fff == 0);
    frag_off = bit_and ip_off 0x1fff * 8;
  })

pub proto_check_tcp : List ℕ → ℕ → ℕ → Out Bool
proto_check_tcp buf d len =
    if ltb len 20
    then ok false
    else do b ← read buf (d + 12); let off = b / 16 * 4; ok (leb 20 off && leb off len)

-- The length of the header that `proto_skip_tcp` skips.
pub tcp_off : List ℕ → ℕ → Out ℕ
tcp_off buf d = do b ← read buf (d + 12); ok (b / 16 * 4)

pub proto_check_udp : ℕ → Bool
proto_check_udp len = leb 8 len

pub proto_check_udp_payload : List ℕ → ℕ → ℕ → Out Bool
proto_check_udp_payload buf d len = do l ← pntoh16 buf (d + 4); ok (leb 8 l && leb l len)

pub proto_check_icmp : ℕ → Bool
proto_check_icmp len = leb 8 len

pub proto_check_ipv6 : List ℕ → ℕ → ℕ → Out Bool
proto_check_ipv6 buf d len =
    if leb 40 len then (do b ← read buf d; ok (bit_and b 0xf0 == 0x60)) else ok false

pub proto_check_ipv6_payload : List ℕ → ℕ → ℕ → Out Bool
proto_check_ipv6_payload buf d len = do plen ← pntoh16 buf (d + 4); ok (leb (plen + 40) len)

-- One round of the loop over extension headers: it ends, or a header of this length is there.
pub data Header : Type 0 where
  stop : Skip → Header
  advance : ℕ → Skip → Header

-- IPPROTO_HOPOPTS, ROUTING, DSTOPTS, MH, HIP, SHIM6
abbrev pub is_options : ℕ → Bool
is_options t = t == 0 || t == 43 || t == 60 || t == 135 || t == 139 || t == 140

pub ipv6_header : List ℕ → Skip → ℕ → Out Header
ipv6_header buf s t =
    if is_options t
    then (if ltb s.len 2
        then ok (stop s)
        else (do l ← read buf (s.at + 1); ok (advance (8 + l * 8) s)))
    else if t == 44
    then (if ltb s.len 8 then ok (stop s) else do
      offlg ← pntoh16 buf (s.at + 2)
      ok (
          advance 8
            (record s { frag = not (bit_and offlg 0xfff9 == 0); frag_off = bit_and offlg 0xfff8 })))
    else if t == 51
    then (if ltb s.len 2
        then ok (stop s)
        else (do l ← read buf (s.at + 1); ok (advance (8 + l * 4) s)))
    else if t == 59
    then ok (stop s)
    else ok (stop (record s { proto = t }))

-- The loop, with the type of the next header. It has run out of fuel where it returns `fault`.
pub ipv6_headers : ℕ → List ℕ → Skip → ℕ → Out Skip
ipv6_headers zero buf s t = fault
ipv6_headers (suc fuel) buf s t =
    if s.len == 0 || s.frag && not (s.frag_off == 0)
    then ok s
    else ipv6_header buf s t >>= elim [
      | stop s' ↦ ok s'
      | advance hdrlen s' ↦
          if ltb s'.len hdrlen
          then ok s'
          else read buf s'.at >>= λ next.
              ipv6_headers fuel buf (record s' { at = s'.at + hdrlen; len = s'.len - hdrlen }) next
    ]

pub proto_skip_ipv6 : List ℕ → ℕ → ℕ → Out Skip
proto_skip_ipv6 buf d len = do
  nxt ← read buf (d + 6)
  plen ← pntoh16 buf (d + 4)
  let rest = sub64 len 40
  let l = if ltb plen rest then plen else rest
  ipv6_headers (l + 1) buf
      (record { at = d + 40; len = l; proto = nxt; frag = false; frag_off = 0 }) nxt

-- The network layer: the dissection so far, and where the transport layer begins.
pub record Network : Type 0 where
  pub dis : Dissect
  pub skip : Skip

pub dissect_ipv4 : List ℕ → ℕ → Out Network
dissect_ipv4 buf len = do
  proto ← read buf 9
  iplen ← pntoh16 buf 2
  let len' = if ltb iplen len then iplen else len
  s ← proto_skip_ipv4 buf 0 len' proto
  ok (record {
    dis = record (blank len') {
      ip = some 0;
      proto = s.proto;
      len_l3 = s.at;
      frag = s.frag;
      frag_off = s.frag_off;
    };
    skip = s;
  })

-- `iplen` is a `uint16_t`, so the sum wraps.
pub dissect_ipv6 : List ℕ → ℕ → Out Network
dissect_ipv6 buf len = do
  plen ← pntoh16 buf 4
  let iplen = wrap16 (plen + 40)
  let len' = if ltb iplen len then iplen else len
  s ← proto_skip_ipv6 buf 0 len'
  ok (record {
    dis = record (blank len') {
      ip6 = some 0;
      proto = s.proto;
      len_l3 = s.at;
      frag = s.frag;
      frag_off = s.frag_off;
    };
    skip = s;
  })

-- The transport header, if there is one: the dissection and the length of that header.
pub transport : List ℕ → Bool → Dissect → ℕ → ℕ → Out (Dissect × ℕ)
transport buf no_payload_check dis d len = do
  tcp ← (if dis.proto == ipproto_tcp then proto_check_tcp buf d len else ok false)
  udp ←
      (if dis.proto == ipproto_udp && proto_check_udp len
        then (if no_payload_check then ok true else proto_check_udp_payload buf d len)
        else ok false)
  if tcp
      then (do off ← tcp_off buf d; ok (record dis { tcp = some d }, off))
      else if udp
      then ok (record dis { udp = some d }, 8)
      else if (dis.proto == ipproto_icmp || dis.proto == ipproto_icmpv6) && proto_check_icmp len
      then ok (record dis { icmp = some d }, 8)
      else ok (dis, 0)

pub finish : List ℕ → Bool → Network → Out Dissect
finish buf no_payload_check n = do
  let d = n.skip.at
  let len = n.skip.len
  (dis, off) ← (if n.dis.frag then ok (n.dis, 0) else transport buf no_payload_check n.dis d len)
  ok (record dis {
    len_l4 = off;
    transport_len = len;
    payload = d + off;
    len_payload = sub64 len off;
  })

-- `a && (no_payload_check || b)`, where the payload is looked at only if it has to be.
pub checked : Out Bool → Bool → Out Bool → Out Bool
checked header no_payload_check body =
    header >>= λ b. if b then (if no_payload_check then ok true else body) else ok false

pub proto_dissect_l3l4 : List ℕ → ℕ → Bool → Out Dissect
proto_dissect_l3l4 buf len no_payload_check = do
  v4 ← checked (proto_check_ipv4 buf 0 len) no_payload_check (proto_check_ipv4_payload buf 0 len)
  if v4 then dissect_ipv4 buf len >>= finish buf no_payload_check else (do
    v6 ← checked (proto_check_ipv6 buf 0 len) no_payload_check (proto_check_ipv6_payload buf 0 len)
    if v6 then dissect_ipv6 buf len >>= finish buf no_payload_check else ok (blank len))
