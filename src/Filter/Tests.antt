-- ===== src/Filter/Tests.antt =====
-- Runs of the parsers of filters and ranges.
use prizma.Base.{ℕ, ◌≡◌, refl, true, false, some, List, [], ◌∷◌, arith}
use prizma.Filter.{
  counter_mode, PortFilter, pf_parse, deny_all, pf_double, filter, icf_scanned, PacketPos,
  packet_pos_always, packet_range_parse,
}
use prizma.Filter.Ports.{Parsed, pf_parse-Parsed}
use prizma.Filter.Ranges.{pos_text, sign, counts, packet_range_parse-pos_text}

abbrev untouched : PortFilter
untouched = record { from = 7; to = 7; neg = false }

-- The text `~80-443`.
abbrev outside_text : List ℕ
outside_text = b'~' ∷ b'8' ∷ b'0' ∷ b'-' ∷ b'4' ∷ b'4' ∷ b'3' ∷ []

pf_parse-Parsed_example : Parsed untouched (pf_parse (some outside_text) untouched)
pf_parse-Parsed_example = pf_parse-Parsed (some outside_text) untouched

outside :
    pf_double (80 ∷ 443 ∷ []) [] (record untouched { neg = true })
    ≡ (true, record { from = 80; to = 443; neg = true })
unfolding pf_double deny_all
outside = refl

backwards : pf_double (443 ∷ 80 ∷ []) [] untouched ≡ (false, untouched)
unfolding pf_double
backwards = refl

-- `1:2` as an ICMP filter.
echo :
    icf_scanned (1 ∷ b':' ∷ 2 ∷ [])
    ≡ (true, record { mode = filter; type_ = 1; code = 2; code_valid = true })
unfolding icf_scanned
echo = refl

abbrev lower : PacketPos
lower = record { mode = b'n'; pos = 2 }

abbrev up_to : PacketPos
up_to = record { mode = b'd'; pos = 100 }

-- `n2<d100` and its halves.
packet_range_parse-pos_text_example :
    (packet_range_parse (pos_text lower (sign true ∷ pos_text up_to []))
      ≡ some (record { from = lower; to = up_to; upper_cutoff = true }))
    × (packet_range_parse (pos_text lower (sign true ∷ []))
        ≡ some (record { from = lower; to = packet_pos_always; upper_cutoff = true }))
    × (packet_range_parse (sign true ∷ pos_text up_to [])
        ≡ some (record { from = packet_pos_always; to = up_to; upper_cutoff = true }))
unfolding counter_mode
packet_range_parse-pos_text_example =
    packet_range_parse-pos_text lower up_to true (counts b'n' 2 refl (omega arith))
      (counts b'd' 100 refl (omega arith)) refl
