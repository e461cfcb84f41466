-- ===== src/Filter/Ranges.antt =====
-- nfq2/filter.c: the texts of packet ranges and `packet_range_parse`.
use prizma.Base.{
  ℕ, ◌^◌, ◌<◌, ◌≡◌, ◌∙◌, ap, refl, Bool, true, false, ◌||◌, none, some, List, [], ◌∷◌, ◌==◌,
  if◌then◌else◌, arith,
}
use prizma.Text.{sscanf, is_digit, strchr}
use prizma.Text.Decimal.{decimal, Stops, scan_uint-decimal, strchr-decimal}
use prizma.Filter.{
  PacketPos, packet_pos_always, counter_mode, pos_scanned, packet_pos_parse, range_to, range_sign,
  range_after, range_from, packet_range_parse,
}

abbrev mark : ℕ → Bool
mark c = c == b'x' || c == b'a'

-- A limit that a text can stand for.
pub data IsPos : PacketPos → Type 0 where
  marks : (c : ℕ) → mark c ≡ true → IsPos (record { mode = c; pos = 0 })
  counts : (c n : ℕ) → counter_mode c ≡ true → n < 2 ^ 32 → IsPos (record { mode = c; pos = n })

-- The text of a limit, before another text.
abbrev pub pos_text : PacketPos → List ℕ → List ℕ
pos_text p s = p.mode ∷ (if mark p.mode then s else decimal p.pos s)

abbrev pub sign : Bool → ℕ
sign cutoff = if cutoff then b'<' else b'-'

counter_not_mark : (c : ℕ) → counter_mode c ≡ true → mark c ≡ false
unfolding counter_mode
counter_not_mark c h = ground arith

packet_pos_parse-pos_text :
    (p : PacketPos) (s : List ℕ) → IsPos p → Stops s → packet_pos_parse (pos_text p s) ≡ some p
unfolding packet_pos_parse pos_scanned sscanf
packet_pos_parse-pos_text p s (marks c h) stop = rw h refl
packet_pos_parse-pos_text p s (counts c n h lt) stop =
    let m : mark c ≡ false = counter_not_mark c h in
    rw (m, h, scan_uint-decimal n s lt stop, pos_scanned) refl

-- What separates is neither a digit nor the mode of a limit.
data Separates : ℕ → Type 0 where
  dash : Separates b'-'
  less : Separates b'<'

mode_other : (x c : ℕ) → Separates x → (mark c ≡ true) → (c == x) ≡ false
mode_other x c dash h = ground arith
mode_other x c less h = ground arith

counter_other : (x c : ℕ) → Separates x → (counter_mode c ≡ true) → (c == x) ≡ false
unfolding counter_mode
counter_other x c dash h = ground arith
counter_other x c less h = ground arith

not_digit : (x : ℕ) → Separates x → is_digit x ≡ false
unfolding is_digit
not_digit x dash = refl
not_digit x less = refl

strchr-pos_text :
    (x : ℕ) (p : PacketPos) (s : List ℕ)
    → Separates x
    → IsPos p
    → strchr x (pos_text p s) ≡ strchr x s
unfolding strchr
strchr-pos_text x p s w (marks c h) = rw (mode_other x c w h, h, strchr) refl
strchr-pos_text x p s w (counts c n h lt) =
    rw (counter_other x c w h, counter_not_mark c h, strchr) (strchr-decimal x n s (not_digit x w))

mode-other : (x : ℕ) (p : PacketPos) → Separates x → IsPos p → (p.mode == x) ≡ false
mode-other x p w (marks c h) = mode_other x c w h
mode-other x p w (counts c n h lt) = counter_other x c w h

sign-Separates : (cutoff : Bool) → Separates (sign cutoff)
sign-Separates true = less
sign-Separates false = dash

sign-is_less : (cutoff : Bool) → (sign cutoff == b'<') ≡ cutoff
sign-is_less true = refl
sign-is_less false = refl

range_sign_dash : (s t : List ℕ) → strchr b'-' s ≡ some t → range_sign s ≡ some t
unfolding range_sign
range_sign_dash s t h = rw (h, range_sign) refl

range_sign_less :
    (s t : List ℕ) → strchr b'-' s ≡ none → strchr b'<' s ≡ some t → range_sign s ≡ some t
unfolding range_sign
range_sign_less s t n h = rw (n, range_sign) h

range_sign-sign :
    (p : PacketPos) (cutoff : Bool) (t : List ℕ)
    → IsPos p
    → strchr b'-' t ≡ none
    → range_sign (pos_text p (sign cutoff ∷ t)) ≡ some (sign cutoff ∷ t)
unfolding strchr
range_sign-sign p true t v h =
    range_sign_less (pos_text p (b'<' ∷ t)) (b'<' ∷ t)
      (strchr-pos_text b'-' p (b'<' ∷ t) dash v ∙ h) (strchr-pos_text b'<' p (b'<' ∷ t) less v)
range_sign-sign p false t v h =
    range_sign_dash (pos_text p (b'-' ∷ t)) (b'-' ∷ t) (strchr-pos_text b'-' p (b'-' ∷ t) dash v)

packet_range_parse-read :
    (c : ℕ) (s t : List ℕ) (p : PacketPos) (cutoff : Bool)
    → (c == b'-') ≡ false
    → (c == b'<') ≡ false
    → packet_pos_parse (c ∷ s) ≡ some p
    → (p.mode == b'x') ≡ false
    → range_sign (c ∷ s) ≡ some (sign cutoff ∷ t)
    → packet_range_parse (c ∷ s) ≡ range_to t p cutoff
unfolding packet_range_parse range_from range_after
packet_range_parse-read c s t p cutoff a b parsed n signs =
    rw (a, b, parsed, n, signs, packet_range_parse, range_from, range_after)
      (ap (λ (x : Bool). range_to t p x) (sign-is_less cutoff))

-- The text of the lower limit and the sign are read, the rest is the upper limit.
packet_range_parse-lower :
    (p : PacketPos) (cutoff : Bool) (t : List ℕ)
    → IsPos p
    → (p.mode == b'x') ≡ false
    → strchr b'-' t ≡ none
    → packet_range_parse (pos_text p (sign cutoff ∷ t)) ≡ range_to t p cutoff
packet_range_parse-lower p cutoff t v n h =
    let stop : Stops (sign cutoff ∷ t) = not_digit (sign cutoff) (sign-Separates cutoff) in
    packet_range_parse-read p.mode
      (if mark p.mode then sign cutoff ∷ t else decimal p.pos (sign cutoff ∷ t)) t p cutoff
      (mode-other b'-' p dash v) (mode-other b'<' p less v)
      (packet_pos_parse-pos_text p (sign cutoff ∷ t) v stop) n (range_sign-sign p cutoff t v h)

range_to-read :
    (c : ℕ) (s : List ℕ) (from to : PacketPos) (cutoff : Bool)
    → packet_pos_parse (c ∷ s) ≡ some to
    → range_to (c ∷ s) from cutoff ≡ some (record { from = from; to = to; upper_cutoff = cutoff })
unfolding range_to
range_to-read c s from to cutoff h = rw (h, range_to) refl

range_to-pos_text :
    (from to : PacketPos) (cutoff : Bool)
    → IsPos to
    → range_to (pos_text to []) from cutoff
      ≡ some (record { from = from; to = to; upper_cutoff = cutoff })
range_to-pos_text from to cutoff v =
    range_to-read to.mode (if mark to.mode then [] else decimal to.pos []) from to cutoff
      (packet_pos_parse-pos_text to [] v tt)

no_dash : (p : PacketPos) → IsPos p → strchr b'-' (pos_text p []) ≡ none
unfolding strchr
no_dash p v = strchr-pos_text b'-' p [] dash v

-- A range whose limits are written as a text and parsed again is the same range, with the sign `-` for
-- an upper limit that belongs to it and `<` for one that does not, unless the lower limit is `x`. Where
-- the text of the upper or of the lower limit is left out, the range is open on that side.
pub packet_range_parse-pos_text :
    (from to : PacketPos) (cutoff : Bool)
    → IsPos from
    → IsPos to
    → (from.mode == b'x') ≡ false
    → (packet_range_parse (pos_text from (sign cutoff ∷ pos_text to []))
        ≡ some (record { from = from; to = to; upper_cutoff = cutoff }))
      × (packet_range_parse (pos_text from (sign cutoff ∷ []))
          ≡ some (record { from = from; to = packet_pos_always; upper_cutoff = cutoff }))
      × (packet_range_parse (sign cutoff ∷ pos_text to [])
          ≡ some (record { from = packet_pos_always; to = to; upper_cutoff = cutoff }))
unfolding packet_range_parse strchr range_to
packet_range_parse-pos_text from to true v w n = (
  packet_range_parse-lower from true (pos_text to []) v n (no_dash to w)
      ∙ range_to-pos_text from to true w,
  packet_range_parse-lower from true [] v n refl,
  range_to-pos_text packet_pos_always to true w,
)
packet_range_parse-pos_text from to false v w n = (
  packet_range_parse-lower from false (pos_text to []) v n (no_dash to w)
      ∙ range_to-pos_text from to false w,
  packet_range_parse-lower from false [] v n refl,
  range_to-pos_text packet_pos_always to false w,
)
