-- ===== src/Desync/Sessions/Order.antt =====
-- nfq2/desync.c: the packets that wait while the message of a client is joined.
use prizma.Base.{
  ℕ, ◌^◌, ◌<◌, ◌≡◌, Bool, Option, none, some, List, [], ◌∷◌, ◌++◌, Out, ok, ◌>>=◌, length,
}
use prizma.Positions.{Positions}
use prizma.Queue.{RawPacket, rawpacket_queue}
use prizma.Desync.Sessions.Kept.{IsAlloc, Kept}
use prizma.Reasm.{IsValid}
use prizma.Conntrack.{Track}
use prizma.Desync.Sessions.{Result, reasm_client_feed, reasm_client_stop, reasm_client_start}

-- What happens to the entry of a connection: its positions move with a packet that is fed, a packet is
-- queued, or the message of the client begins, goes on or ends.
pub data Op : Type 0 where
  moves : Positions → Op
  delays :
      (allocated : Bool) (dst : List ℕ) (fwmark_orig fwmark : ℕ) (ifin ifout : Option (List ℕ))
      (data' : List ℕ) (len_payload : ℕ) (tpos : Option Positions) (server_side : Bool)
      → Op
  starts : (alloc : Option (List ℕ)) (proto pl sz sz_max : ℕ) (payload : List ℕ) → Op
  feeds : (proto : ℕ) (payload : List ℕ) → Op
  stops : Op

-- The entry, the packets that it has sent, and those that its queue has taken, in their order.
pub record Session : Type 0 where
  pub track : Track
  pub sent : List RawPacket
  pub taken : List RawPacket

abbrev pub to_list : Option RawPacket → List RawPacket
to_list none = []
to_list (some rp) = rp ∷ []

abbrev pub after : Session → Result → Session
after s r = record s { track = r.track; sent = s.sent ++ r.sent }

module _ (rawsend_rp : RawPacket → Bool) where
  abbrev pub step : Op → Session → Out Session
  step (moves pos) s = ok (record s { track = record s.track { pos = pos } })
  step (delays allocated dst fwmark_orig fwmark ifin ifout data' len_payload tpos server_side) s =
      let r =
        rawpacket_queue allocated s.track.delayed dst fwmark_orig fwmark ifin ifout data'
          len_payload tpos server_side in
      ok (record s { track = record s.track { delayed = r.1 }; taken = s.taken ++ to_list r.0 })
  step (starts alloc proto pl sz sz_max payload) s = do
    r ← reasm_client_start alloc s.track proto pl sz sz_max payload
    ok (record s { track = r.1 })
  step (feeds proto payload) s = do
    r ← reasm_client_feed rawsend_rp s.track proto payload
    ok (after s r)
  step stops s = ok (after s (reasm_client_stop rawsend_rp s.track))

  abbrev pub run : List Op → Session → Out Session
  run [] s = ok s
  run (x ∷ xs) s = step x s >>= run xs

-- What holds of the arguments: sequence numbers are words, no object has 2 ^ 63 bytes, and `malloc` gives
-- what it is asked for or nothing.
abbrev pub IsFit : Op → Type 0
IsFit (moves pos) = pos.client.seq_last < 2 ^ 32
IsFit (delays _ _ _ _ _ _ _ _ _ _) = Unit
IsFit (starts alloc proto pl sz sz_max payload) =
    IsAlloc alloc sz × (sz < 2 ^ 63) × (length payload < 2 ^ 63)
IsFit (feeds proto payload) = length payload < 2 ^ 63
IsFit stops = Unit

abbrev pub AllIsFit : List Op → Type 0
AllIsFit [] = Unit
AllIsFit (x ∷ xs) = IsFit x × AllIsFit xs

-- The packets that were taken are those that were sent and then those that wait, and the buffer is well
-- formed.
pub record IsConserved (s : Session) : Type 0 where
  pub order : s.sent ++ s.track.delayed.q ≡ s.taken
  pub buffer : IsValid s.track.reasm_client
  pub word : s.track.pos.client.seq_last < 2 ^ 32
