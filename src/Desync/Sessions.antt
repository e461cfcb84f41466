-- ===== src/Desync/Sessions.antt =====
-- nfq2/desync.c: the reassembly of what a client sends, from `send_delayed` to `reasm_client_fin`, and
-- `rawsend_queue` of nfq2/darkmagic.c. The packets that are handed to `rawsend_rp` are a list, and what
-- it returns is a parameter: raw sockets are not in the sources.
pub mod Kept
pub mod Order
mod Tests
use prizma.Base.{
  ℕ, ◌^◌, Bool, true, false, not, ◌&&◌, Option, none, some, List, [], ◌∷◌, ◌++◌, Out, ok, ◌>>=◌,
  ltb, leb, ◌==◌, if◌then◌else◌, wrap32,
}
use prizma.Positions.{Positions}
use prizma.Queue.{RawPacket, RawPacketQueue, rawpacket_dequeue, rawpacket_queue_empty}
use prizma.Reasm.{Reasm, clear, init, feed, is_empty}
use prizma.Conntrack.{Track}

abbrev pub tcp_proto : ℕ
tcp_proto = 6

-- L7P_UNKNOWN
abbrev pub l7p_unknown : ℕ
l7p_unknown = 1

-- The result of a function, the entry as it leaves it, and the packets that it sends.
pub record Result : Type 0 where
  pub result : Bool
  pub track : Track
  pub sent : List RawPacket

-- The queue as `rawsend_queue` leaves it, with its result and what it sends.
pub record Flushed : Type 0 where
  pub result : Bool
  pub queue : RawPacketQueue
  pub sent : List RawPacket

-- `sz <= szMax` and what follows in `reasm_start`; `alloc` is what `malloc` returns. The result of
-- `ReasmFeed` is not looked at.
pub reasm_start : Option (List ℕ) → Reasm → ℕ → ℕ → ℕ → List ℕ → Out (Bool × Reasm)
reasm_start alloc reasm seq sz sz_max payload =
    let cleared = clear reasm in
    let started = init alloc cleared sz seq in
    if leb sz sz_max
    then (if started.0
        then (do fed ← feed started.1 seq payload; ok (true, fed.1))
        else ok (false, started.1))
    else ok (false, cleared)

module _ (rawsend_rp : RawPacket → Bool) where
  -- `for (b=true; (rp=rawpacket_dequeue(q)) ; …) b &= rawsend_rp(rp);`, over the list of what is
  -- there.
  send_loop : List RawPacket → Flushed → Flushed
  send_loop [] f = record f { queue = (rawpacket_dequeue f.queue).1 }
  send_loop (x ∷ xs) f = elim ((rawpacket_dequeue f.queue).0) [
    | none ↦ f
    | some rp ↦ send_loop xs (record {
      result = f.result && rawsend_rp rp;
      queue = (rawpacket_dequeue f.queue).1;
      sent = f.sent ++ (rp ∷ []);
    })
  ]

  pub rawsend_queue : RawPacketQueue → Flushed
  rawsend_queue q = send_loop q.q (record { result = true; queue = q; sent = [] })

  pub send_delayed : Track → Result
  send_delayed t =
      let f = rawsend_queue t.delayed in
      if rawpacket_queue_empty t.delayed
      then record { result = true; track = t; sent = [] }
      else record { result = f.result; track = record t { delayed = f.queue }; sent = f.sent }

  reasm_failed : Track → Reasm → Out Result
  reasm_failed t r =
      let s = send_delayed (record t { reasm_client = clear r }) in
      ok (record { result = false; track = s.track; sent = s.sent })

  -- `reasm_feed` where the buffer is that of the client, as it is at its only call.
  pub reasm_feed : Track → ℕ → List ℕ → Out Result
  reasm_feed t seq payload =
      if is_empty t.reasm_client then ok (record { result = false; track = t; sent = [] }) else (do
        fed ← feed t.reasm_client seq payload
        if fed.0
            then ok (record { result = true; track = record t { reasm_client = fed.1 }; sent = [] })
            else reasm_failed t fed.1)

  pub reasm_client_feed : Track → ℕ → List ℕ → Out Result
  reasm_client_feed t proto payload =
      reasm_feed t
        (if proto == tcp_proto then t.pos.client.seq_last else wrap32 t.reasm_client.size_present)
        payload

  pub reasm_client_stop : Track → Result
  reasm_client_stop t = send_delayed (
      if is_empty t.reasm_client
      then t
      else record t { reasm_client = clear t.reasm_client; reasm_client_payload = l7p_unknown })

pub reasm_client_start : Option (List ℕ) → Track → ℕ → ℕ → ℕ → ℕ → List ℕ → Out (Bool × Track)
reasm_client_start alloc t proto pl sz sz_max payload =
    let server = t.pos.server in
    let seq = if proto == tcp_proto then t.pos.client.seq_last else 0 in
    if proto == tcp_proto && not (server.pcounter == 0) && ltb server.winsize_calc sz
    then ok (false, t)
    else (do
      r ← reasm_start alloc t.reasm_client seq sz sz_max payload
      ok (r.0, record t { reasm_client_payload = pl; reasm_client = r.1 }))
