-- ===== src/Tls.antt =====
-- nfq2/protocol.c: recognising a TLS hello, finding an extension in it and the host name in its SNI.
-- A pointer is an offset `d` of `buf`, with the length that the C function is given beside it.
pub mod Bounds
pub mod Walk
mod Tests
use prizma.Base.{
  ℕ, zero, suc, ◌+◌, ◌-◌, Bool, true, false, ◌&&◌, ◌||◌, List, [], ◌∷◌, Out, ok, no, fault, ◌>>=◌,
  ◌>>◌, guard, ltb, leb, ◌==◌, not, if◌then◌else◌, read,
}
use prizma.Bytes.{pntoh16, pntoh24}

pub tls_handshake_data_len : List ℕ → ℕ → Out ℕ
tls_handshake_data_len buf d = pntoh24 buf (d + 1)

pub tls_handshake_len : List ℕ → ℕ → Out ℕ
unfolding tls_handshake_data_len
tls_handshake_len buf d = do l ← tls_handshake_data_len buf d; ok (l + 4)

pub is_tls_handshake_full : List ℕ → ℕ → ℕ → Out Bool
is_tls_handshake_full buf d len = do l ← tls_handshake_len buf d; ok (leb l len)

pub tls_record_data_len : List ℕ → ℕ → Out ℕ
tls_record_data_len buf d = pntoh16 buf (d + 3)

pub tls_record_len : List ℕ → ℕ → Out ℕ
unfolding tls_record_data_len
tls_record_len buf d = do l ← tls_record_data_len buf d; ok (l + 5)

pub is_tls_record_full : List ℕ → ℕ → ℕ → Out Bool
is_tls_record_full buf d len = do l ← tls_record_len buf d; ok (leb l len)

-- `type && data[0]==type || !type && (data[0]==0x01 || data[0]==0x02)`
abbrev pub is_hello_type : ℕ → ℕ → Bool
is_hello_type type b = not (type == 0) && b == type || type == 0 && (b == 1 || b == 2)

pub is_tls_handshake_hello : List ℕ → ℕ → ℕ → ℕ → Bool → Out Bool
is_tls_handshake_hello buf d len type partial_is_ok =
    if leb 6 len
    then (do
      b0 ← read buf d
      b4 ← read buf (d + 4)
      b5 ← read buf (d + 5)
      if is_hello_type type b0 && b4 == 3 && leb b5 3
          then (if partial_is_ok then ok true else is_tls_handshake_full buf d len)
          else ok false)
    else ok false

pub is_tls_handshake_client_hello : List ℕ → ℕ → ℕ → Bool → Out Bool
is_tls_handshake_client_hello buf d len partial_is_ok =
    is_tls_handshake_hello buf d len 1 partial_is_ok

pub is_tls_handshake_server_hello : List ℕ → ℕ → ℕ → Bool → Out Bool
is_tls_handshake_server_hello buf d len partial_is_ok =
    is_tls_handshake_hello buf d len 2 partial_is_ok

pub is_tls_hello : List ℕ → ℕ → ℕ → ℕ → Bool → Out Bool
is_tls_hello buf d len type partial_is_ok =
    if leb 6 len
    then (do
      b0 ← read buf d
      b1 ← read buf (d + 1)
      b2 ← read buf (d + 2)
      full ← (if partial_is_ok then ok true else is_tls_record_full buf d len)
      if b0 == 0x16 && b1 == 3 && leb b2 3 && full
          then is_tls_handshake_hello buf (d + 5) (len - 5) type partial_is_ok
          else ok false)
    else ok false

pub is_tls_client_hello : List ℕ → ℕ → ℕ → Bool → Out Bool
is_tls_client_hello buf d len partial_is_ok = is_tls_hello buf d len 1 partial_is_ok

pub is_tls_server_hello : List ℕ → ℕ → ℕ → Bool → Out Bool
is_tls_server_hello buf d len partial_is_ok = is_tls_hello buf d len 2 partial_is_ok

pub is_tls_client_hello_partial : List ℕ → ℕ → ℕ → Out Bool
is_tls_client_hello_partial buf d len = is_tls_client_hello buf d len true

pub is_tls_server_hello_partial : List ℕ → ℕ → ℕ → Out Bool
is_tls_server_hello_partial buf d len = is_tls_server_hello buf d len true

-- The offset of the length of the extensions, from the start of the handshake.
pub tls_find_ext_len_offset_in_handshake : List ℕ → ℕ → ℕ → Out ℕ
tls_find_ext_len_offset_in_handshake buf d len = do
  guard (leb (38 + 1) len)
  sid ← read buf (d + 38)
  let l1 = 38 + (sid + 1)
  guard (leb (l1 + 2) len)
  b0 ← read buf d
  suites ← (if b0 == 1 then pntoh16 buf (d + l1) else ok 0)
  let l2 = l1 + suites + 2
  guard (leb (l2 + 1) len)
  methods ← (if b0 == 1 then read buf (d + l2) else ok 0)
  let l3 = l2 + methods + 1
  guard (leb (l3 + 2) len)
  ok l3

pub tls_find_ext_len : List ℕ → ℕ → ℕ → Out ℕ
tls_find_ext_len buf d len = do
  guard (leb 5 len)
  off ← tls_find_ext_len_offset_in_handshake buf (d + 5) (len - 5)
  ok (off + 5)

-- Where an extension's content is: `*ext` and `*len_ext`.
pub record Ext : Type 0 where
  pub at : ℕ
  pub len : ℕ

-- `while (l >= 4)`. It has run out of fuel where it returns `fault`.
pub walk : ℕ → List ℕ → ℕ → ℕ → ℕ → Out Ext
walk zero buf d l type = fault
walk (suc fuel) buf d l type =
    if leb 4 l
    then (do
      etype ← pntoh16 buf d
      elen ← pntoh16 buf (d + 2)
      if ltb (l - 4) elen
          then no
          else (let rest = walk fuel buf (d + 4 + elen) (l - 4 - elen) type in
              if etype == type then ok (record { at = d + 4; len = elen }) else rest))
    else no

pub tls_find_ext_in_handshake : List ℕ → ℕ → ℕ → ℕ → Bool → Out Ext
tls_find_ext_in_handshake buf d len type partial_is_ok = do
  full ← (if partial_is_ok then ok true else is_tls_handshake_full buf d len)
  guard full
  off ← tls_find_ext_len_offset_in_handshake buf d len
  let d' = d + off
  let len' = len - off
  l ← pntoh16 buf d'
  let left = len' - 2
  guard (partial_is_ok || leb l left)
  let l' = if ltb left l then left else l
  walk (l' + 1) buf (d' + 2) l' type

pub tls_find_ext : List ℕ → ℕ → ℕ → ℕ → Bool → Out Ext
tls_find_ext buf d len type partial_is_ok = do
  hello ← is_tls_hello buf d len 0 partial_is_ok
  guard hello
  reclen ← tls_record_len buf d
  let len' = if ltb reclen len then reclen else len
  tls_find_ext_in_handshake buf (d + 5) (len' - 5) type partial_is_ok

-- The name in a server name extension: `*ext`, and `*slen` as its length. What `*elen` becomes is not
-- used by any caller.
pub tls_advance_to_host_in_sni : List ℕ → Ext → Out Ext
tls_advance_to_host_in_sni buf e = do
  guard (leb 5 e.len)
  kind ← read buf (e.at + 2)
  guard (kind == 0)
  nll ← pntoh16 buf e.at
  slen ← pntoh16 buf (e.at + 3)
  guard (not (ltb nll (slen + 3) || ltb (e.len - 2) nll))
  ok (record { at = e.at + 5; len = slen })

-- `tolower` of the C locale.
pub tolower : ℕ → ℕ
tolower c = if leb b'A' c && leb c b'Z' then c + 32 else c

-- `for (i = 0; i < n; i++) host[i] = tolower(ext[i]);`
pub copy_lower : List ℕ → ℕ → ℕ → Out (List ℕ)
copy_lower buf p zero = ok []
copy_lower buf p (suc n) = do c ← read buf p; rest ← copy_lower buf (p + 1) n; ok (tolower c ∷ rest)

-- What is stored into `host`, a buffer of `len_host` bytes, before the final zero.
pub tls_extract_host_from_ext : List ℕ → Ext → ℕ → Out (List ℕ)
tls_extract_host_from_ext buf e len_host = do
  name ← tls_advance_to_host_in_sni buf e
  if len_host == 0
      then ok []
      else copy_lower buf name.at (if leb len_host name.len then len_host - 1 else name.len)

pub tls_hello_extract_host : List ℕ → ℕ → ℕ → ℕ → Bool → Out (List ℕ)
tls_hello_extract_host buf d len len_host partial_is_ok = do
  e ← tls_find_ext buf d len 0 partial_is_ok
  tls_extract_host_from_ext buf e len_host

pub tls_hello_extract_host_from_handshake : List ℕ → ℕ → ℕ → ℕ → Bool → Out (List ℕ)
tls_hello_extract_host_from_handshake buf d len len_host partial_is_ok = do
  e ← tls_find_ext_in_handshake buf d len 0 partial_is_ok
  tls_extract_host_from_ext buf e len_host
