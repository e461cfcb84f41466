-- ===== src/Queue.antt =====
-- nfq2/packet_queue.c: the queue of packets that wait for a decision. The tail queue of C is the list
-- of its elements, the first one at the head.
pub mod Order
mod Tests
use prizma.Base.{
  ℕ, zero, suc, ◌+◌, Bool, true, false, not, ◌&&◌, Option, none, some, List, [], ◌∷◌, ◌++◌, leb,
  ◌==◌, if◌then◌else◌, length, take,
}
use prizma.Positions.{Positions}

pub record RawPacket : Type 0 where
  pub dst : List ℕ
  pub ifin : List ℕ
  pub ifout : List ℕ
  pub fwmark_orig : ℕ
  pub fwmark : ℕ
  pub len : ℕ
  pub len_payload : ℕ
  pub packet : List ℕ
  pub tpos : Option Positions
  pub server_side : Bool

pub record RawPacketQueue : Type 0 where
  pub q : List RawPacket
  pub max_packets : ℕ

unfoldable pub rawpacket_queue_init : ℕ → RawPacketQueue
rawpacket_queue_init max_packets = record { q = []; max_packets = max_packets }

unfoldable pub rawpacket_dequeue : RawPacketQueue → Option RawPacket × RawPacketQueue
rawpacket_dequeue q = elim q.q [ [] ↦ (none, q) | rp ∷ rest ↦ (some rp, record q { q = rest }) ]

-- `while((rp = rawpacket_dequeue(q))) …`, over the list of what is there.
destroy_loop : List RawPacket → RawPacketQueue → RawPacketQueue
destroy_loop [] q = (rawpacket_dequeue q).1
destroy_loop (x ∷ xs) q = destroy_loop xs (rawpacket_dequeue q).1

pub rawpacket_queue_destroy : RawPacketQueue → RawPacketQueue
rawpacket_queue_destroy q = destroy_loop q.q q

-- `TAILQ_FOREACH(rp, &q->q, next) ct++;`
pub count_packets : List RawPacket → ℕ
count_packets [] = 0
count_packets (x ∷ xs) = suc (count_packets xs)

pub rawpacket_queue_count : RawPacketQueue → ℕ
rawpacket_queue_count q = count_packets q.q

-- `snprintf(rp->ifin,sizeof(rp->ifin),"%s",ifin)`, where IFNAMSIZ is 16.
abbrev pub if_name : Option (List ℕ) → List ℕ
if_name none = []
if_name (some s) = take 15 s

-- `data` are the `len` bytes of the packet, `allocated` tells whether both calls of `malloc` succeed.
pub rawpacket_queue :
    Bool
    → RawPacketQueue
    → List ℕ
    → ℕ
    → ℕ
    → Option (List ℕ)
    → Option (List ℕ)
    → List ℕ
    → ℕ
    → Option Positions
    → Bool
    → Option RawPacket × RawPacketQueue
rawpacket_queue allocated q dst fwmark_orig fwmark ifin ifout data' len_payload tpos server_side =
    let rp : RawPacket = record {
      dst = dst;
      ifin = if_name ifin;
      ifout = if_name ifout;
      fwmark_orig = fwmark_orig;
      fwmark = fwmark;
      len = length data';
      len_payload = len_payload;
      packet = data';
      tpos = tpos;
      server_side = server_side;
    } in
    if not (q.max_packets == 0) && leb q.max_packets (rawpacket_queue_count q)
    then (none, q)
    else if allocated
    then (some rp, record q { q = q.q ++ (rp ∷ []) })
    else (none, q)

unfoldable pub rawpacket_queue_empty : RawPacketQueue → Bool
rawpacket_queue_empty q = elim q.q [ [] ↦ true | _ ∷ _ ↦ false ]
