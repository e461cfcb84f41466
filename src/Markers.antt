-- ===== src/Markers.antt =====
-- nfq2/protocol.c: positions in a payload that are given by a marker and an offset. A position is
-- counted from the start of the payload, `no` is POS_NOT_FOUND. The offset `pos` is given by its 64
-- bits, and `ssize_t` numbers by theirs.
pub mod Bounds
mod Tests
use prizma.Base.{
  ℕ, zero, suc, ◌+◌, ◌-◌, ◌*◌, ◌/◌, ◌^◌, Bool, true, false, not, ◌&&◌, ◌||◌, List, Out, ok, no,
  ◌>>=◌, ◌>>◌, guard, ltb, leb, ◌==◌, if◌then◌else◌, read, wrap64,
}
use prizma.Http.{http_find_host}
use prizma.Tls.{Ext, tls_find_ext, tls_find_ext_len, tls_advance_to_host_in_sni}

pub data Marker : Type 0 where
  abs : Marker
  host : Marker
  host_end : Marker
  host_sld : Marker
  host_midsld : Marker
  host_endsld : Marker
  http_method : Marker
  ext_len : Marker
  sni_ext : Marker

-- `for (; p>dom && *p!='.'; p--);` from the offset that is given.
pub back_to_dot : List ℕ → ℕ → ℕ → Out ℕ
back_to_dot buf d zero = ok 0
back_to_dot buf d (suc p) = do
  c ← read buf (d + suc p)
  let rest = back_to_dot buf d p
  if c == b'.' then ok (suc p) else rest

-- The loop over the levels: where the domain ends.
pub skip_levels : List ℕ → ℕ → ℕ → ℕ → Out ℕ
skip_levels buf d zero p2 = ok p2
skip_levels buf d (suc n) p2 = do
  q ← back_to_dot buf d (p2 - 1)
  guard (not (q == 0))
  skip_levels buf d n q

pub find_nld : List ℕ → ℕ → ℕ → ℕ → Out Ext
find_nld buf d dlen level = do
  guard (leb 1 level)
  p2 ← skip_levels buf d (level - 1) dlen
  guard (not (p2 == 0))
  q ← back_to_dot buf d (p2 - 1)
  c ← read buf (d + q)
  let p1 = if c == b'.' then q + 1 else q
  ok (record { at = d + p1; len = p2 - p1 })

-- `offset>=0 && offset<sz`
pub check_pos : ℕ → ℕ → Out ℕ
check_pos sz offset = if ltb offset (2 ^ 63) && ltb offset sz then ok offset else no

pub any_proto_pos : Marker → ℕ → ℕ → Out ℕ
any_proto_pos abs pos sz = check_pos sz (if leb (2 ^ 63) pos then wrap64 (sz + pos) else pos)
any_proto_pos _ pos sz = no

abbrev pub is_host_mark : Marker → Bool
is_host_mark host = true
is_host_mark host_end = true
is_host_mark host_sld = true
is_host_mark host_midsld = true
is_host_mark host_endsld = true
is_host_mark _ = false

-- Where the second level domain of a host begins, ends or is halved.
abbrev pub in_sld : Marker → ℕ → ℕ → Out ℕ
in_sld host_sld p slen = ok p
in_sld host_endsld p slen = ok (p + slen)
in_sld host_midsld p slen = ok (if slen == 1 then p + 1 else p + slen / 2)
in_sld _ p slen = no

-- The offset of the marker without `pos`.
pub host_mark : Marker → List ℕ → ℕ → ℕ → ℕ → ℕ → Out ℕ
host_mark host buf d sz offset_host len_host = ok offset_host
host_mark host_end buf d sz offset_host len_host = ok (offset_host + len_host)
host_mark m buf d sz offset_host len_host = do
  guard (leb (offset_host + len_host) sz)
  e ← find_nld buf (d + offset_host) len_host 2
  in_sld m (e.at - d) e.len

pub host_pos : Marker → ℕ → List ℕ → ℕ → ℕ → ℕ → ℕ → Out ℕ
host_pos m pos buf d sz offset_host len_host = do
  offset ← host_mark m buf d sz offset_host len_host
  check_pos sz (wrap64 (offset + pos))

pub tls_pos : Marker → ℕ → List ℕ → ℕ → ℕ → Out ℕ
tls_pos sni_ext pos buf d sz = do
  e ← tls_find_ext buf d sz 0 true
  check_pos sz (wrap64 (e.at - d + pos))
tls_pos ext_len pos buf d sz = do
  offset ← tls_find_ext_len buf d sz
  check_pos sz (wrap64 (offset + pos))
tls_pos m pos buf d sz =
    if is_host_mark m
    then (do
      e ← tls_find_ext buf d sz 0 true
      name ← tls_advance_to_host_in_sni buf e
      host_pos m pos buf d sz (name.at - d) name.len)
    else any_proto_pos m pos sz

-- `for (p=method,i=0; i<9 && *p>='A' && *p<='Z'; i++,p++);`: how many turns of `n` are left.
pub capitals : List ℕ → ℕ → ℕ → Out ℕ
capitals buf p zero = ok 0
capitals buf p (suc n) = do
  c ← read buf p
  let rest = capitals buf (p + 1) n
  if leb b'A' c && leb c b'Z' then rest else ok (suc n)

-- `if (*method=='\n' || *method=='\r') method++;`
pub skip_line_end : List ℕ → ℕ → Out ℕ
skip_line_end buf p = do c ← read buf p; ok (if c == 10 || c == 13 then p + 1 else p)

pub method_pos : ℕ → List ℕ → ℕ → ℕ → Out ℕ
method_pos pos buf d sz = do
  guard (leb 12 sz)
  m1 ← skip_line_end buf d
  m2 ← skip_line_end buf m1
  left ← capitals buf m2 9
  let i = 9 - left
  c ← read buf (m2 + i)
  guard (not (ltb i 3 || not (c == b' ')))
  check_pos sz (wrap64 (m2 - d + pos))

-- The length of the line from `p` on, of `n` bytes that are left.
pub line_length : List ℕ → ℕ → ℕ → Out ℕ
line_length buf p zero = ok 0
line_length buf p (suc n) = do
  c ← read buf p
  let rest = line_length buf (p + 1) n >>= λ l. ok (l + 1)
  if c == 13 || c == 10 then ok 0 else rest

abbrev pub is_host : Marker → Bool
is_host host = true
is_host _ = false

pub http_host_pos : Marker → ℕ → List ℕ → ℕ → ℕ → Out ℕ
http_host_pos m pos buf d sz = do
  h ← http_find_host buf d sz
  guard (ltb (h - d + 7) sz)
  c ← read buf (h + 5)
  let start = if c == b' ' || c == 9 then h + 6 else h + 5
  len_host ← (if is_host m then ok 0 else line_length buf start (sz - (start - d)))
  host_pos m pos buf d sz (start - d) len_host

pub http_pos : Marker → ℕ → List ℕ → ℕ → ℕ → Out ℕ
http_pos http_method pos buf d sz = method_pos pos buf d sz
http_pos m pos buf d sz =
    if is_host_mark m then http_host_pos m pos buf d sz else any_proto_pos m pos sz

pub data Payload : Type 0 where
  http_req : Payload
  tls_client_hello : Payload
  any_payload : Payload

pub resolve_pos : List ℕ → ℕ → ℕ → Payload → Marker → ℕ → Out ℕ
resolve_pos buf d sz http_req m pos = http_pos m pos buf d sz
resolve_pos buf d sz tls_client_hello m pos = tls_pos m pos buf d sz
resolve_pos buf d sz any_payload m pos = any_proto_pos m pos sz
