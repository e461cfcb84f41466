-- ===== src/Quic.antt =====
-- nfq2/protocol.c: variable-length integers, versions and the unencrypted header of QUIC.
pub mod Integers
pub mod Initial
pub mod Defrag
mod Tests
use Prim.Native.Nat.{bit_and}
use prizma.Base.{
  ℕ, zero, suc, ◌+◌, ◌-◌, ◌*◌, ◌/◌, ◌%◌, ◌^◌, Bool, true, false, not, ◌&&◌, ◌||◌, List, [], ◌∷◌,
  Out, ok, no, fault, ◌>>=◌, ◌>>◌, guard, ltb, leb, ◌==◌, if◌then◌else◌, read, slice, wrap8, wrap64,
}
use prizma.Bytes.{pntoh16, pntoh32, pntoh64}
use prizma.Tls.{is_tls_handshake_client_hello}

-- What `tvb_get_varint` returns, and what it stores.
pub record Varint : Type 0 where
  pub size : ℕ
  pub value : ℕ

unfoldable pub tvb_get_varint : List ℕ → ℕ → Out Varint
tvb_get_varint buf p = do
  b ← read buf p
  let kind = b / 2 ^ 6
  if kind == 0
      then ok (record { size = 1; value = bit_and b 0x3f })
      else if kind == 1
      then (do v ← pntoh16 buf p; ok (record { size = 2; value = bit_and v 0x3fff }))
      else if kind == 2
      then (do v ← pntoh32 buf p; ok (record { size = 4; value = bit_and v 0x3fff_ffff }))
      else if kind == 3
      then (do v ← pntoh64 buf p; ok (record { size = 8; value = bit_and v 0x3fff_ffff_ffff_ffff }))
      else ok (record { size = 0; value = 0 })

pub tvb_get_size : ℕ → ℕ
tvb_get_size b = 2 ^ (b / 2 ^ 6)

-- The offset and the length of the hello in a CRYPTO frame.
pub record Hello : Type 0 where
  pub offset : ℕ
  pub len : ℕ

pub is_quic_crypto_hello : List ℕ → ℕ → ℕ → Out Hello
is_quic_crypto_hello buf d len = do
  guard (leb 3 len)
  kind ← read buf d
  guard (kind == 6)
  b ← read buf (d + 1)
  guard (ltb (1 + tvb_get_size b) len)
  coff ← tvb_get_varint buf (d + 1)
  let offset = 1 + coff.size
  guard (coff.value == 0)
  b' ← read buf (d + offset)
  guard (ltb (offset + tvb_get_size b') len)
  clen ← tvb_get_varint buf (d + offset)
  let start = offset + clen.size
  guard (leb (start + clen.value) len)
  hello ← is_tls_handshake_client_hello buf (d + start) clen.value true
  guard hello
  ok (record { offset = start; len = clen.value })

pub is_quic_v2 : ℕ → Bool
is_quic_v2 version = version == 0x709a_50c4 || version == 0x6b33_43cf

pub quic_draft_version : ℕ → ℕ
quic_draft_version version =
    if version / 2 ^ 8 == 0xff_0000
    then wrap8 version
    else if version == 0xface_b001
    then 22
    else if version == 0xface_b002 || version == 0xface_b00e
    then 27
    else if version == 0x5130_3530 || version == 0x5430_3530 || version == 0x5430_3531
    then 27
    else if bit_and version 0x0f0f_0f0f == 0x0a0a_0a0a
    then 29
    else if version == 1
    then 34
    else if is_quic_v2 version
    then 100
    else 0

pub is_quic_draft_max : ℕ → ℕ → Bool
is_quic_draft_max draft_version max_version =
    not (draft_version == 0) && leb draft_version max_version

pub quic_is_long_header : List ℕ → ℕ → ℕ → Out Bool
quic_is_long_header buf d len =
    if leb 9 len then (do b ← read buf d; ok (not (bit_and b 0x80 == 0))) else ok false

pub quic_extract_version : List ℕ → ℕ → ℕ → Out ℕ
quic_extract_version buf d len = do
  long ← quic_is_long_header buf d len
  if long then pntoh32 buf (d + 1) else ok 0

abbrev pub quic_max_cid_length : ℕ
quic_max_cid_length = 20

-- The connection id, of its length.
pub quic_extract_dcid : List ℕ → ℕ → ℕ → Out (List ℕ)
quic_extract_dcid buf d len = do
  long ← quic_is_long_header buf d len
  guard long
  n ← read buf (d + 5)
  guard (not (n == 0) && leb n quic_max_cid_length && leb (6 + n) len)
  ok (slice (d + 6) n buf)

-- The offsets are 64-bit.
pub is_quic_initial : List ℕ → ℕ → ℕ → Out Bool
is_quic_initial buf d len = if ltb len 128 then ok false else do
  ver ← quic_extract_version buf d len
  b0 ← read buf d
  n ← read buf (d + 5)
  let scid = 5 + (1 + n)
  if ltb (quic_draft_version ver) 11
        || not (bit_and b0 0xf0 == (if is_quic_v2 ver then 0xd0 else 0xc0))
        || ltb quic_max_cid_length n
        || leb len scid
      then ok false
      else (do
        m ← read buf (d + scid)
        let token = scid + (1 + m)
        if ltb quic_max_cid_length m || leb len token then ok false else do
          t ← read buf (d + token)
          if ltb len (token + tvb_get_size t) then ok false else do
            v ← tvb_get_varint buf (d + token)
            let payload = wrap64 (token + v.size + v.value)
            if leb len payload then ok false else do
              s ← read buf (d + payload)
              if ltb len (payload + tvb_get_size s) then ok false else do
                w ← tvb_get_varint buf (d + payload)
                ok (leb (wrap64 (payload + tvb_get_size s + w.value)) len))
