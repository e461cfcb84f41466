-- ===== src/Conntrack/Upper.antt =====
-- nfq2/conntrack.c: `uppos` and `uppos_prev` in `ConntrackApplyPos`.
use mathlib.Core.Path.{subst}
use prizma.Base.{
  none, some, ℕ, ◌+◌, ◌^◌, ◌<◌, ◌≤◌, ◌≡◌, ◌∙◌, refl, Bool, true, false, if◌then◌else◌, ◌==◌, sub32,
  wrap32, Bool-cases, inl, inr, arith,
}
use prizma.Base.Bits.{bit_and_field}
use prizma.Positions.{State, Position, Positions}
use prizma.Conntrack.{Packet, Ends, is_syn, behind, window, upper, over_2g, apply_ends, apply_pos}
use prizma.Conntrack.Options.{Tcp}

-- The test of the highest bit says that the difference is at least 2 ^ 31.
behind-far : (a b : ℕ) → behind a b ≡ true → 2 ^ 31 ≤ sub32 a b
behind-far a b h = ground (arith, bit_and_field 31 1 (sub32 a b))

behind-near : (a b : ℕ) → behind a b ≡ false → sub32 a b < 2 ^ 31
behind-near a b h = ground (arith, bit_and_field 31 1 (sub32 a b))

-- Going from `d` to `e`, the highest position did not go back, it is not before the new position by more
-- than half of the range, and what it was is kept.
pub record Raised (d e : Position) : Type 0 where
  pub forward : sub32 e.uppos d.uppos < 2 ^ 31
  pub above : sub32 e.uppos e.pos ≤ 2 ^ 31
  pub before : e.uppos_prev ≡ d.uppos

abbrev pub direct : Bool → Positions → Position
direct reverse t = if reverse then t.server else t.client

upper-Raised :
    (s : State) (n : ℕ) (d : Position)
    → is_syn s ≡ false
    → (n == 0) ≡ false
    → d.pos < 2 ^ 32
    → d.uppos < 2 ^ 32
    → Raised d (upper s n d)
unfolding upper
upper-Raised s n d e z w w' = elim (Bool-cases (behind d.pos d.uppos)) [
  | inl b ↦
      let far : 2 ^ 31 ≤ sub32 d.pos d.uppos = behind-far d.pos d.uppos b in
      rw (e, z, b) (record { forward = omega arith; above = omega arith; before = refl })
  | inr b ↦
      let near : sub32 d.pos d.uppos < 2 ^ 31 = behind-near d.pos d.uppos b in
      rw (e, z, b) (record { forward = near; above = omega arith; before = refl })
]

window-uppos : (s : State) (d : Position) (tcp : Tcp) → (window s d tcp).uppos ≡ d.uppos
unfolding window
window-uppos s d tcp = elim (Bool-cases (is_syn s)) [ inl e ↦ rw e refl | inr e ↦ rw e refl ]

apply_ends-Raised :
    (s : State) (p : Packet) (tcp : Tcp) (e : Ends)
    → is_syn s ≡ false
    → (p.len_payload == 0) ≡ false
    → e.direct.uppos < 2 ^ 32
    → Raised e.direct (apply_ends s p tcp e).direct
unfolding apply_ends over_2g
apply_ends-Raised s p tcp e est data' w =
    let flow : ℕ = elim p.ip6 [ none ↦ e.direct.ip6flow | some ip6 ↦ ip6.flow ] in
    let x : Position = window s (record e.direct { ip6flow = flow }) tcp in
    let d : Position = record x { seq_last = tcp.seq; pos = wrap32 (tcp.seq + p.len_payload) } in
    let same : x.uppos ≡ e.direct.uppos = window-uppos s (record e.direct { ip6flow = flow }) tcp in
    let r = upper-Raised s p.len_payload d est data' (omega arith) (omega arith) in
    record {
      forward = subst (λ (u : ℕ). sub32 (upper s p.len_payload d).uppos u < 2 ^ 31) same r.forward;
      above = r.above;
      before = r.before ∙ same;
    }

-- Outside of the SYN stage, a TCP packet with a payload never moves the highest position of its end
-- back, in the order of sequence numbers, leaves it not before the end of that payload by more than half
-- of the range, and keeps what it was, from which a retransmission is told.
pub apply_pos-Raised :
    (t : Positions) (reverse : Bool) (p : Packet) (tcp : Tcp)
    → is_syn t.state ≡ false
    → (p.len_payload == 0) ≡ false
    → (direct reverse t).uppos < 2 ^ 32
    → Raised (direct reverse t) (direct reverse (apply_pos t reverse p tcp))
unfolding apply_pos
apply_pos-Raised t true p tcp est data' w =
    apply_ends-Raised t.state p tcp (record { direct = t.server; reverse = t.client }) est data' w
apply_pos-Raised t false p tcp est data' w =
    apply_ends-Raised t.state p tcp (record { direct = t.client; reverse = t.server }) est data' w
