-- ===== src/Filter.antt =====
-- nfq2/filter.c and filter.h: the filters of ports, ICMP types and protocols, and the ranges of packet
-- counters, with their parsers. What the parsers of filters store although they refuse the text is
-- returned too.
pub mod Ports
pub mod Ranges
mod Tests
use prizma.Base.{
  ℕ, ◌+◌, ◌-◌, ◌^◌, Bool, true, false, not, ◌&&◌, ◌||◌, xor, Option, none, some, List, [], ◌∷◌, ltb,
  leb, ◌==◌, if◌then◌else◌, length, take, drop,
}
use prizma.Text.{sscanf, unsigned, character, literal, strchr}

pub record PortFilter : Type 0 where
  pub from : ℕ
  pub to : ℕ
  pub neg : Bool

pub pf_match : ℕ → PortFilter → Bool
pf_match port pf =
    not (port == 0) && xor (pf.from == 0 && pf.to == 0 || leb pf.from port && leb port pf.to) pf.neg

-- `if (!pf->from && !pf->to) pf->neg=true; return true;`
deny_all : PortFilter → Bool × PortFilter
deny_all pf = (true, record pf { neg = if pf.from == 0 && pf.to == 0 then true else pf.neg })

-- What the second `sscanf` of `pf_parse` converts, and then what the first does.
pf_single : List ℕ → PortFilter → Bool × PortFilter
pf_single (v1 ∷ []) pf =
    if ltb 65535 v1 then (false, pf) else deny_all (record pf { from = v1; to = v1 })
pf_single _ pf = (false, pf)

pf_double : List ℕ → List ℕ → PortFilter → Bool × PortFilter
pf_double (v1 ∷ v2 ∷ []) single pf =
    if ltb 65535 v1 || ltb 65535 v2 || ltb v2 v1
    then (false, pf)
    else deny_all (record pf { from = v1; to = v2 })
pf_double _ single pf = pf_single single pf

-- The part of `pf_parse` after the sign.
pf_parse_range : List ℕ → PortFilter → Bool × PortFilter
pf_parse_range s pf =
    pf_double (sscanf (unsigned ∷ literal b'-' ∷ unsigned ∷ character ∷ []) s)
      (sscanf (unsigned ∷ character ∷ []) s) pf

pf_parse_sign : List ℕ → PortFilter → Bool × PortFilter
pf_parse_sign [] pf = pf_parse_range [] (record pf { neg = false })
pf_parse_sign (c ∷ s) pf =
    if c == b'~'
    then pf_parse_range s (record pf { neg = true })
    else pf_parse_range (c ∷ s) (record pf { neg = false })

pub is_star : List ℕ → Bool
is_star (c ∷ []) = c == b'*'
is_star _ = false

pub pf_parse : Option (List ℕ) → PortFilter → Bool × PortFilter
pf_parse none pf = (false, pf)
pf_parse (some s) pf =
    if is_star s then (true, record { from = 1; to = 0xffff; neg = false }) else pf_parse_sign s pf

-- FLTMODE_SKIP, FLTMODE_ANY and FLTMODE_FILTER.
pub data FltMode : Type 0 where
  skip : FltMode
  any : FltMode
  filter : FltMode

-- The result, and the mode that is stored.
fltmode_parse : List ℕ → Bool × FltMode
fltmode_parse (c ∷ []) =
    if c == b'*' then (true, any) else if c == b'-' then (true, skip) else (false, skip)
fltmode_parse _ = (false, skip)

pub record IcmpFilter : Type 0 where
  pub mode : FltMode
  pub type_ : ℕ
  pub code : ℕ
  pub code_valid : Bool

pub icf_match : ℕ → ℕ → IcmpFilter → Bool
icf_match type_ code icf = elim icf.mode [
  | any ↦ true
  | filter ↦ icf.type_ == type_ && (not icf.code_valid || icf.code == code)
  | skip ↦ false
]

-- The two cases of the switch of `icf_parse` that are not the default.
icf_scanned : List ℕ → Bool × IcmpFilter
icf_scanned (u1 ∷ []) =
    if ltb 0xff u1
    then (false, record { mode = skip; type_ = 0; code = 0; code_valid = false })
    else (true, record { mode = filter; type_ = u1; code = 0; code_valid = false })
icf_scanned (u1 ∷ c1 ∷ u2 ∷ []) =
    if not (c1 == b':') || ltb 0xff u1 || ltb 0xff u2
    then (false, record { mode = skip; type_ = 0; code = 0; code_valid = false })
    else (true, record { mode = filter; type_ = u1; code = u2; code_valid = true })
icf_scanned _ = (false, record { mode = skip; type_ = 0; code = 0; code_valid = false })

pub icf_parse : List ℕ → Bool × IcmpFilter
icf_parse s =
    let m = fltmode_parse s in
    if m.0
    then (true, record { mode = m.1; type_ = 0; code = 0; code_valid = false })
    else icf_scanned (sscanf (unsigned ∷ character ∷ unsigned ∷ character ∷ []) s)

pub record IppFilter : Type 0 where
  pub mode : FltMode
  pub proto : ℕ

pub ipp_match : ℕ → IppFilter → Bool
ipp_match proto ipp = elim ipp.mode [ any ↦ true | filter ↦ ipp.proto == proto | skip ↦ false ]

ipp_scanned : List ℕ → Bool × IppFilter
ipp_scanned (u1 ∷ []) =
    if ltb 0xff u1
    then (false, record { mode = skip; proto = 0xff })
    else (true, record { mode = filter; proto = u1 })
ipp_scanned _ = (false, record { mode = skip; proto = 0xff })

pub ipp_parse : List ℕ → Bool × IppFilter
ipp_parse s =
    let m = fltmode_parse s in
    if m.0
    then (true, record { mode = m.1; proto = 0xff })
    else ipp_scanned (sscanf (unsigned ∷ character ∷ []) s)

-- `n`, `d`, `s`, `p` and `b` are counters; `x` is never and `a` always.
pub record PacketPos : Type 0 where
  pub mode : ℕ
  pub pos : ℕ

pub record PacketRange : Type 0 where
  pub from : PacketPos
  pub to : PacketPos
  pub upper_cutoff : Bool

abbrev pub packet_pos_never : PacketPos
packet_pos_never = record { mode = b'x'; pos = 0 }

abbrev pub packet_pos_always : PacketPos
packet_pos_always = record { mode = b'a'; pos = 0 }

abbrev pub packet_range_never : PacketRange
packet_range_never = record { from = packet_pos_never; to = packet_pos_never; upper_cutoff = false }

abbrev pub packet_range_always : PacketRange
packet_range_always = record {
  from = packet_pos_always;
  to = packet_pos_always;
  upper_cutoff = false;
}

pub counter_mode : ℕ → Bool
counter_mode c = c == b'n' || c == b'd' || c == b's' || c == b'p' || c == b'b'

-- `sscanf(s+1,"%u",&pos->pos)==1`
pos_scanned : ℕ → List ℕ → Option PacketPos
pos_scanned mode [] = none
pos_scanned mode (v ∷ _) = some (record { mode = mode; pos = v })

-- What is stored, where the result is true.
pub packet_pos_parse : List ℕ → Option PacketPos
packet_pos_parse [] = none
packet_pos_parse (c ∷ s) =
    if c == b'x' || c == b'a'
    then some (record { mode = c; pos = 0 })
    else if counter_mode c
    then pos_scanned c (sscanf (unsigned ∷ []) s)
    else none

-- The part of `packet_range_parse` after `s++`, with the rest of the text.
range_to : List ℕ → PacketPos → Bool → Option PacketRange
range_to [] from upper_cutoff =
    some (record { from = from; to = packet_pos_always; upper_cutoff = upper_cutoff })
range_to (c ∷ s) from upper_cutoff = elim (packet_pos_parse (c ∷ s)) [
  | none ↦ none
  | some to ↦ some (record { from = from; to = to; upper_cutoff = upper_cutoff })
]

-- `p` in `packet_range_parse`: the first `-`, else the first `<`.
range_sign : List ℕ → Option (List ℕ)
range_sign s = elim (strchr b'-' s) [ some p ↦ some p | none ↦ strchr b'<' s ]

range_after : List ℕ → PacketPos → Option PacketRange
range_after s from = elim (range_sign s) [
  | some (c ∷ p) ↦ range_to p from (c == b'<')
  | _ ↦
      if from.mode == b'a'
      then some (record { from = from; to = from; upper_cutoff = false })
      else none
]

range_from : List ℕ → Option PacketRange
range_from s = elim (packet_pos_parse s) [
  | none ↦ none
  | some from ↦
      if from.mode == b'x'
      then some (record { from = from; to = from; upper_cutoff = false })
      else range_after s from
]

-- The range that is stored, where the result is true.
pub packet_range_parse : List ℕ → Option PacketRange
packet_range_parse [] = range_from []
packet_range_parse (c ∷ s) =
    if c == b'-' || c == b'<' then range_to s packet_pos_always (c == b'<') else range_from (c ∷ s)

-- An address is the list of its bytes; `inet_pton` reads it from a text, or does not.
pub record Cidr : Type 0 where
  pub addr : List ℕ
  pub preflen : ℕ

-- The address before the slash, where the length of the prefix is read.
cidr_at : (List ℕ → Option (List ℕ)) → List ℕ → ℕ → Option Cidr
cidr_at inet_pton s preflen = elim (inet_pton s) [
  | none ↦ none
  | some addr ↦ some (record { addr = addr; preflen = preflen })
]

cidr_scanned : (List ℕ → Option (List ℕ)) → ℕ → List ℕ → List ℕ → Option Cidr
cidr_scanned inet_pton bits s [] = none
cidr_scanned inet_pton bits s (plen ∷ _) = if ltb bits plen then none else cidr_at inet_pton s plen

-- `parse_cidr4` and `parse_cidr6` differ in the number of bits of an address, 32 and 128.
pub parse_cidr : (List ℕ → Option (List ℕ)) → ℕ → List ℕ → Option Cidr
parse_cidr inet_pton bits s = elim (strchr b'/' s) [
  | none ↦ cidr_at inet_pton s bits
  | some p ↦
      cidr_scanned inet_pton bits (take (length s - length p) s) (sscanf (unsigned ∷ []) (drop 1 p))
]
