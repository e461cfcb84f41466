-- ===== src/Queue/Order.antt =====
-- nfq2/packet_queue.c: order and number of the packets in the queue.
use prizma.Base.{
  ℕ, zero, suc, ◌+◌, ◌≤◌, ◌≡◌, ◌∙◌, ap, sym, refl, ◌⊎◌, inl, inr, Bool, true, false, not, ◌&&◌,
  ◌||◌, Option, none, some, List, [], ◌∷◌, ◌++◌, ltb, leb, ◌==◌, length, length-append, Bool-cases,
  arith,
}
use prizma.Positions.{Positions}
use prizma.Queue.{
  RawPacket, RawPacketQueue, count_packets, rawpacket_queue_count, rawpacket_queue,
  rawpacket_dequeue,
}

count_packets-length : (q : List RawPacket) → count_packets q ≡ length q
unfolding count_packets
count_packets-length [] = refl
count_packets-length (x ∷ xs) = omega (arith, count_packets-length xs)

-- A limit of 0 is none.
abbrev pub IsBounded : RawPacketQueue → Type 0
IsBounded q = (q.max_packets ≡ 0) ⊎ (rawpacket_queue_count q ≤ q.max_packets)

abbrev pub has_room : RawPacketQueue → Bool
has_room q = q.max_packets == 0 || ltb (rawpacket_queue_count q) q.max_packets

-- The packets that `n` calls of dequeue return.
abbrev pub drain : ℕ → RawPacketQueue → List RawPacket
drain zero q = []
drain (suc n) q =
    let rest = drain n (rawpacket_dequeue q).1 in
    elim ((rawpacket_dequeue q).0) [ none ↦ [] | some rp ↦ rp ∷ rest ]

drain-q :
    (l : List RawPacket) (max : ℕ)
    → drain (count_packets l) (record { q = l; max_packets = max }) ≡ l
unfolding count_packets rawpacket_dequeue
drain-q [] max = refl
drain-q (x ∷ xs) max = ap (λ (r : List RawPacket). x ∷ r) (drain-q xs max)

drain-append :
    (l : List RawPacket) (rp : RawPacket) (max : ℕ)
    → drain (count_packets (l ++ (rp ∷ []))) (record { q = l ++ (rp ∷ []); max_packets = max })
      ≡ drain (count_packets l) (record { q = l; max_packets = max }) ++ (rp ∷ [])
drain-append l rp max =
    drain-q (l ++ (rp ∷ [])) max ∙ ap (λ (r : List RawPacket). r ++ (rp ∷ [])) (sym (drain-q l max))

-- What queueing `data` does: the packet goes last and carries the data, or nothing has changed.
pub data Queued (q : RawPacketQueue) (data' : List ℕ) (room : Bool)
    : Option RawPacket × RawPacketQueue → Type 0 where
  last :
      {rp : RawPacket} {r : RawPacketQueue}
      → room ≡ true
      → rp.packet ≡ data'
      → rp.len ≡ length data'
      → drain (rawpacket_queue_count r) r ≡ drain (rawpacket_queue_count q) q ++ (rp ∷ [])
      → IsBounded r
      → Queued q data' room (some rp, r)
  refused : room ≡ false → Queued q data' room (none, q)

module _ (allocated : Bool) (q : RawPacketQueue) (dst : List ℕ) (fwmark_orig fwmark : ℕ)
    (ifin ifout : Option (List ℕ)) (data' : List ℕ) (len_payload : ℕ) (tpos : Option Positions)
    (server_side : Bool) where
  bounded :
      (rp : RawPacket)
      → IsBounded q
      → (q.max_packets == 0 || ltb (count_packets q.q) q.max_packets) ≡ true
      → IsBounded (record q { q = q.q ++ (rp ∷ []) })
  unfolding rawpacket_queue_count
  bounded rp b room =
      let more : count_packets (q.q ++ (rp ∷ [])) ≡ count_packets q.q + 1 =
        count_packets-length (q.q ++ (rp ∷ []))
        ∙ length-append q.q (rp ∷ [])
        ∙ omega (arith, count_packets-length q.q) in
      elim (Bool-cases (q.max_packets == 0)) [
        | inl z ↦ inl (ground arith)
        | inr z ↦ inr (ground (arith, more))
      ]

  -- Queueing a packet on a queue within its limit: where there is room and memory, the packet comes out
  -- after all that were there, in their order, with its bytes and length, and the queue is within its
  -- limit; else nothing is queued and the queue is as it was.
  pub rawpacket_queue-Queued :
      IsBounded q
      → Queued q data' (has_room q && allocated) (
          rawpacket_queue allocated q dst fwmark_orig fwmark ifin ifout data' len_payload tpos
            server_side)
  unfolding rawpacket_queue rawpacket_queue_count
  rawpacket_queue-Queued b =
      elim (Bool-cases (not (q.max_packets == 0) && leb q.max_packets (count_packets q.q))) [
        | inl full ↦ rw full (refused (ground arith))
        | inr room ↦ elim (Bool-cases allocated) [
          | inr a ↦ rw (room, a) (refused (ground arith))
          | inl a ↦
              rw (room, a)
                (last (ground arith) refl refl (drain-append q.q _ q.max_packets)
                  (bounded _ b (ground arith)))
        ]
      ]

-- The two ways in which `rawpacket_queue` returns.
pub data Appended (q : RawPacketQueue) : Option RawPacket × RawPacketQueue → Type 0 where
  appended : {rp : RawPacket} → Appended q (some rp, record q { q = q.q ++ (rp ∷ []) })
  unchanged : Appended q (none, q)

pub rawpacket_queue-Appended :
    (allocated : Bool) (q : RawPacketQueue) (dst : List ℕ) (fwmark_orig fwmark : ℕ)
    (ifin ifout : Option (List ℕ)) (data' : List ℕ) (len_payload : ℕ) (tpos : Option Positions)
    (server_side : Bool)
    → Appended q (
        rawpacket_queue allocated q dst fwmark_orig fwmark ifin ifout data' len_payload tpos
          server_side)
unfolding rawpacket_queue
rawpacket_queue-Appended allocated q dst fwmark_orig fwmark ifin ifout data' len_payload tpos side =
    elim (Bool-cases (not (q.max_packets == 0) && leb q.max_packets (rawpacket_queue_count q))) [
      | inl full ↦ rw full unchanged
      | inr room ↦ elim (Bool-cases allocated) [
        | inr a ↦ rw (room, a) unchanged
        | inl a ↦ rw (room, a) appended
      ]
    ]
