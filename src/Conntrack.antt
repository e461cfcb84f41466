-- ===== src/Conntrack.antt =====
-- nfq2/conntrack.c and conntrack.h: what is kept of a connection, and how a packet changes it. The
-- headers that `struct dissect` points to are records of the fields that are read, in host order.
pub mod Options
pub mod Pool
pub mod Counts
pub mod States
pub mod Upper
mod Tests
use Prim.Native.Nat.{bit_and}
use prizma.Base.{
  ℕ, zero, suc, ◌+◌, ◌-◌, ◌*◌, ◌%◌, ◌^◌, Bool, true, false, not, ◌&&◌, Option, none, some, List,
  ◌==◌, if◌then◌else◌, leb, sub32, wrap32, wrap64,
}
use prizma.Conntrack.Options.{
  Tcp, tcp_find_scale_factor, tcp_find_mss, scale_none, tcp_syn_segment, tcp_synack_segment,
}
use prizma.Positions.{
  State, syn, established, fin, Time, Position, Positions, no_time, zero_positions,
}
use prizma.Queue.{RawPacketQueue, rawpacket_queue_init}
use prizma.Reasm.{Reasm}

pub record Ip : Type 0 where
  pub src : ℕ
  pub dst : ℕ

pub record Ip6 : Type 0 where
  pub src : ℕ
  pub dst : ℕ
  pub flow : ℕ

pub record Udp : Type 0 where
  pub sport : ℕ
  pub dport : ℕ

-- `struct dissect`, as far as it is read here.
pub record Packet : Type 0 where
  pub ip : Option Ip
  pub ip6 : Option Ip6
  pub tcp : Option Tcp
  pub udp : Option Udp
  pub len_payload : ℕ

-- `t_ctrack` without its two references into the Lua registry. A profile is its number.
pub record Track : Type 0 where
  pub check_done : Bool
  pub check_result : Bool
  pub check_excluded : Bool
  pub t_start : Time
  pub pos : Positions
  pub dp : Option ℕ
  pub dp_search_complete : Bool
  pub req_retrans_counter : ℕ
  pub failure_detect_finalized : Bool
  pub incoming_ttl : ℕ
  pub b_cutoff : Bool
  pub b_lua_in_cutoff : Bool
  pub b_lua_out_cutoff : Bool
  pub l7proto : ℕ
  pub l7proto_discovered : Bool
  pub hostname : Option (List ℕ)
  pub hostname_is_ip : Bool
  pub hostname_discovered : Bool
  pub hostname_ah_check : Bool
  pub reasm_client_payload : ℕ
  pub reasm_client : Reasm
  pub delayed : RawPacketQueue

pub clear_hostname : Track → Track
clear_hostname t = record t { hostname = none; hostname_is_ip = false }

-- L7_UNKNOWN and L7P_UNKNOWN are 1, RAW_PACKET_QUEUE_DELAYED_MAX is 64.
unfoldable pub init_track : Track
init_track = record {
  check_done = false;
  check_result = false;
  check_excluded = false;
  t_start = no_time;
  pos = zero_positions;
  dp = none;
  dp_search_complete = false;
  req_retrans_counter = 0;
  failure_detect_finalized = false;
  incoming_ttl = 0;
  b_cutoff = false;
  b_lua_in_cutoff = false;
  b_lua_out_cutoff = false;
  l7proto = 1;
  l7proto_discovered = false;
  hostname = none;
  hostname_is_ip = false;
  hostname_discovered = false;
  hostname_ah_check = false;
  reasm_client_payload = 1;
  reasm_client = record { packet = none; seq = 0; size = 0; size_present = 0 };
  delayed = rawpacket_queue_init 64;
}

-- `(a - b) & 0x80000000`
abbrev pub behind : ℕ → ℕ → Bool
behind a b = not (bit_and (sub32 a b) 0x8000_0000 == 0)

abbrev pub is_syn : State → Bool
is_syn syn = true
is_syn _ = false

-- The two ends, `direct` and `reverse`, in the order of the direction.
pub record Ends : Type 0 where
  pub direct : Position
  pub reverse : Position

-- In the SYN stage the scale and the MSS are taken, later the scale is applied. C does not define the
-- shift where the scale is 32 or more; the processor takes it modulo 32.
pub window : State → Position → Tcp → Position
window s d tcp =
    let w = record d { winsize = tcp.win; winsize_calc = tcp.win } in
    let sc = tcp_find_scale_factor tcp in
    if is_syn s
    then record w { scale = if sc == scale_none then d.scale else sc; mss = tcp_find_mss tcp }
    else record w { winsize_calc = wrap32 (tcp.win * 2 ^ (d.scale % 32)) }

pub upper : State → ℕ → Position → Position
upper s len_payload d =
    if is_syn s
    then record d { uppos_prev = d.pos; uppos = d.pos }
    else if len_payload == 0
    then d
    else record d { uppos_prev = d.uppos; uppos = if behind d.pos d.uppos then d.uppos else d.pos }

pub over_2g : Position → Position
over_2g d = record d {
  rseq_over_2g = if not d.rseq_over_2g && behind d.seq_last d.seq0 then true else d.rseq_over_2g;
}

pub apply_ends : State → Packet → Tcp → Ends → Ends
apply_ends s p tcp e =
    let flow : ℕ = elim p.ip6 [ none ↦ e.direct.ip6flow | some ip6 ↦ ip6.flow ] in
    let w = window s (record e.direct { ip6flow = flow }) tcp in
    let d = record w { seq_last = tcp.seq; pos = wrap32 (tcp.seq + p.len_payload) } in
    let r = record e.reverse { pos = tcp.ack; seq_last = tcp.ack } in
    record { direct = over_2g (upper s p.len_payload d); reverse = over_2g r }

pub apply_pos : Positions → Bool → Packet → Tcp → Positions
apply_pos t reverse p tcp =
    if reverse
    then (let e = apply_ends t.state p tcp (record { direct = t.server; reverse = t.client }) in
        record t { server = e.direct; client = e.reverse })
    else (let e = apply_ends t.state p tcp (record { direct = t.client; reverse = t.server }) in
        record t { client = e.direct; server = e.reverse })

pub count : ℕ → Position → Position
count len_payload d = record d {
  pcounter = wrap64 (d.pcounter + 1);
  pdcounter = wrap64 (d.pdcounter + (if len_payload == 0 then 0 else 1));
  pbcounter = wrap64 (d.pbcounter + len_payload);
}

pub count_packet : Bool → ℕ → Positions → Positions
count_packet reverse len_payload t =
    if reverse
    then record t { server = count len_payload t.server }
    else record t { client = count len_payload t.client }

-- The part of `ConntrackFeedPacket` that looks at the flags.
pub tcp_state : Track → Bool → Tcp → Track
tcp_state t reverse tcp =
    if tcp_syn_segment tcp
    then (let t' = if is_syn t.pos.state then t else init_track in
        record t' { pos = record t'.pos { client = record t'.pos.client { seq0 = tcp.seq } } })
    else if tcp_synack_segment tcp
    then (let seq0 = sub32 tcp.ack 1 in
        let t' =
          if not (is_syn t.pos.state) && not (t.pos.client.seq0 == seq0) then init_track else t in
        let c = t'.pos.client in
        record t' {
          pos = record t'.pos {
            client = record c { seq0 = if c.seq0 == 0 then seq0 else c.seq0 };
            server = record t'.pos.server { seq0 = tcp.seq };
          };
        })
    else if not (bit_and tcp.flags 5 == 0)
    then record t { pos = record t.pos { state = fin } }
    else if is_syn t.pos.state
    then (let s = t.pos.server in
        record t {
          pos = record t.pos {
            state = established;
            server = record s {
              seq0 = if not reverse && s.seq0 == 0 then sub32 tcp.ack 1 else s.seq0;
            };
          };
        })
    else t

-- `now` is what `clock_gettime` returns.
pub stamp : Time → Track → Track
stamp now t = record t {
  pos = record t.pos { t_last = now };
  t_start = if t.t_start.sec == 0 then now else t.t_start;
}

pub feed_packet : Time → Track → Bool → Packet → Track
feed_packet now t reverse p =
    let t1 = record t { pos = count_packet reverse p.len_payload t.pos } in
    stamp now (elim p.tcp [
      | none ↦ t1
      | some tcp ↦
          (let t2 = tcp_state t1 reverse tcp in record t2 { pos = apply_pos t2.pos reverse p tcp })
    ])
