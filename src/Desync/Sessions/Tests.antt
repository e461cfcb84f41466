-- ===== src/Desync/Sessions/Tests.antt =====
-- A run of a session: a segment of four bytes of a message of eight waits, and the message is done.
use prizma.Base.{ℕ, Bool, true, false, none, some, List, [], ◌∷◌}
use prizma.Queue.{RawPacket}
use prizma.Conntrack.{init_track}
use prizma.Desync.Sessions.Order.{Op, moves, delays, starts, feeds, Session}

abbrev segment : List ℕ
segment = 22 ∷ 3 ∷ 1 ∷ 0 ∷ []

abbrev happens : List Op
happens =
    moves init_track.pos
    ∷ starts (some (0 ∷ 0 ∷ 0 ∷ 0 ∷ 0 ∷ 0 ∷ 0 ∷ 0 ∷ [])) 17 2 8 16384 segment
    ∷ delays true [] 0 0 none none segment 4 none false
    ∷ feeds 17 segment
    ∷ []

abbrev fresh : Session
fresh = record { track = init_track; sent = []; taken = [] }

abbrev lost : RawPacket → Bool
lost rp = false
