-- ===== src/Conntrack/Options.antt =====
-- nfq2/darkmagic.c: the options of a TCP header and the tests of its flags. `options` are the bytes
-- between the fixed header and the end that `th_off` gives.
pub mod Found
use Prim.Native.Nat.{bit_and}
use prizma.Base.{
  ℕ, zero, suc, ◌+◌, ◌-◌, ◌*◌, Bool, true, false, ◌||◌, Option, none, some, List, [], ◌∷◌, ltb, leb,
  ◌==◌, if◌then◌else◌, length, drop, byte_at,
}

pub record Tcp : Type 0 where
  pub sport : ℕ
  pub dport : ℕ
  pub seq : ℕ
  pub ack : ℕ
  pub flags : ℕ
  pub win : ℕ
  pub options : List ℕ

abbrev pub scale_none : ℕ
scale_none = 255

-- The loop of `tcp_find_option`: `t` are the bytes from the pointer to the end.
pub find_option : ℕ → List ℕ → ℕ → Option (List ℕ)
find_option zero t kind = none
find_option (suc fuel) [] kind = none
find_option (suc fuel) (k ∷ t) kind =
    let n = byte_at t 0 in
    let next = find_option fuel t kind in
    let skip = find_option fuel (drop n (k ∷ t)) kind in
    if k == 0
    then none
    else if k == 1
    then next
    else if length t == 0 || ltb n 2 || ltb (length (k ∷ t)) n
    then none
    else if k == kind
    then some (k ∷ t)
    else skip

-- The pointer to the option, as the bytes from there to the end.
pub tcp_find_option : Tcp → ℕ → Option (List ℕ)
tcp_find_option tcp kind = find_option (length tcp.options + 1) tcp.options kind

pub tcp_find_scale_factor : Tcp → ℕ
tcp_find_scale_factor tcp = elim (tcp_find_option tcp 3) [
  | none ↦ scale_none
  | some t ↦ if byte_at t 1 == 3 then byte_at t 2 else scale_none
]

pub tcp_find_mss : Tcp → ℕ
tcp_find_mss tcp = elim (tcp_find_option tcp 2) [
  | none ↦ 0
  | some t ↦ if byte_at t 1 == 4 then byte_at t 2 * 256 + byte_at t 3 else 0
]

pub tcp_synack_segment : Tcp → Bool
tcp_synack_segment tcp = bit_and tcp.flags 0x3f == 0x12

pub tcp_syn_segment : Tcp → Bool
tcp_syn_segment tcp = bit_and tcp.flags 0x3f == 2
