-- ===== src/Queue/Tests.antt =====
-- The queue on concrete packets.
use prizma.Base.{inr, true, false, ◌&&◌, none, some, [], ◌∷◌, arith}
use prizma.Queue.{RawPacketQueue, rawpacket_queue_count, rawpacket_queue, count_packets}
use prizma.Queue.Order.{IsBounded, Queued, has_room, rawpacket_queue-Queued}

-- One packet waits, two may.
abbrev waiting : RawPacketQueue
waiting = record {
  q =
      record {
        dst = [];
        ifin = [];
        ifout = [];
        fwmark_orig = 0;
        fwmark = 0;
        len = 1;
        len_payload = 0;
        packet = 7 ∷ [];
        tpos = none;
        server_side = false;
      }
      ∷ [];
  max_packets = 2;
}

waiting-IsBounded : IsBounded waiting
unfolding rawpacket_queue_count count_packets
waiting-IsBounded = inr (omega arith)

rawpacket_queue-Queued_example :
    Queued waiting
      (1 ∷ 2 ∷ [])
      (has_room waiting && true)
      (rawpacket_queue true waiting [] 0 0 (some (b'e' ∷ [])) none (1 ∷ 2 ∷ []) 1 none true)
rawpacket_queue-Queued_example =
    rawpacket_queue-Queued true waiting [] 0 0 (some (b'e' ∷ [])) none (1 ∷ 2 ∷ []) 1 none true
      waiting-IsBounded
