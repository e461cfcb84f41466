-- ===== src/Conntrack/States.antt =====
-- nfq2/conntrack.c: the field `state` in `ConntrackFeedPacket`.
use Prim.Native.Nat.{bit_and}
use prizma.Base.{◌≡◌, false, not, if◌then◌else◌, ◌==◌}
use prizma.Positions.{State, syn, established, fin, Positions}
use prizma.Conntrack.{is_syn}
use prizma.Conntrack.Options.{Tcp, tcp_syn_segment, tcp_synack_segment}

-- What a segment is to the tracker.
pub data Kind : Type 0 where
  opening : Kind
  answer : Kind
  closing : Kind
  other : Kind

pub kind : Tcp → Kind
kind tcp =
    if tcp_syn_segment tcp
    then opening
    else if tcp_synack_segment tcp
    then answer
    else if not (bit_and tcp.flags 5 == 0)
    then closing
    else other

-- The moves of the state: a SYN leads back to the start, its answer does too or changes nothing, a FIN
-- or RST ends, and anything else establishes what has only started.
pub data Move : Kind → State → State → Type 0 where
  restart : {s : State} → Move opening s syn
  answers_again : {s : State} → Move answer s s
  answers_anew : {s : State} → is_syn s ≡ false → Move answer s syn
  closes : {s : State} → Move closing s fin
  establishes : Move other syn established
  stays : {s : State} → is_syn s ≡ false → Move other s s
