-- ===== src/Desync/Limits.antt =====
-- nfq2/desync.c: the limits of the packets that a function is called for, from `pos_overflow` to
-- `check_pos_range`. A null pointer to a position is `none`.
pub mod Cutoff
mod Tests
use prizma.Base.{
  ℕ, Bool, true, false, not, ◌&&◌, ◌||◌, Option, none, some, ltb, leb, ◌==◌, if◌then◌else◌, sub32,
}
use prizma.Positions.{Position}
use prizma.Filter.{PacketPos, PacketRange}
use prizma.Conntrack.{behind}

-- `!((pos->uppos_prev - pos->pos) & 0x80000000)`
pub is_retransmission : Position → Bool
is_retransmission pos = not (behind pos.uppos_prev pos.pos)

pub pos_overflow : Option Position → ℕ → Bool
pos_overflow none mode = false
pos_overflow (some pos) mode = (mode == b's' || mode == b'p') && pos.rseq_over_2g

pub pos_get : Option Position → ℕ → ℕ
pos_get none mode = 0
pos_get (some pos) mode =
    if mode == b'n'
    then pos.pcounter
    else if mode == b'd'
    then pos.pdcounter
    else if mode == b's'
    then sub32 pos.seq_last pos.seq0
    else if mode == b'p'
    then sub32 pos.pos pos.seq0
    else if mode == b'b'
    then pos.pbcounter
    else 0

-- The last test of `check_pos_from`, and that of `check_pos_to`.
from_reached : Option Position → PacketPos → Bool
from_reached none from = false
from_reached (some pos) from = leb from.pos (pos_get (some pos) from.mode)

to_reached : Option Position → PacketRange → Bool
to_reached none range = false
to_reached (some pos) range =
    let ps = pos_get (some pos) range.to.mode in
    ltb ps range.to.pos || not range.upper_cutoff && ps == range.to.pos

pub check_pos_from : Option Position → PacketRange → Bool
check_pos_from pos range =
    if range.from.mode == b'x' || pos_overflow pos range.from.mode
    then false
    else if range.from.mode == b'a'
    then true
    else from_reached pos range.from

pub check_pos_to : Option Position → PacketRange → Bool
check_pos_to pos range =
    if range.to.mode == b'x' || pos_overflow pos range.to.mode
    then false
    else if range.to.mode == b'a'
    then true
    else to_reached pos range

pub check_pos_cutoff : Option Position → PacketRange → Bool
check_pos_cutoff none range = not (check_pos_to none range) || not (check_pos_from none range)
check_pos_cutoff (some pos) range = not (check_pos_to (some pos) range)

pub check_pos_range : Option Position → PacketRange → Bool
check_pos_range pos range = check_pos_from pos range && check_pos_to pos range
