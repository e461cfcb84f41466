-- ===== src/Markers/Bounds.antt =====
-- nfq2/protocol.c: where `ResolvePos` reads, and the positions that it returns.
use prizma.Base.{
  ℕ, zero, suc, ◌+◌, ◌-◌, ◌^◌, ◌≤◌, ◌<◌, true, not, ◌&&◌, ◌||◌, List, Out, ok, ◌>>=◌, ◌>>◌, guard,
  ltb, leb, ◌==◌, if◌then◌else◌, wrap64, byte_at, length, arith, Ensures, returns, refuses,
  Ensures-bind, Ensures-if, Ensures-read, Ensures-guard, Ensures-weaken,
}
use prizma.Bytes.Value.{IsBytes}
use prizma.Http.{http_find_host}
use prizma.Http.Bounds.{http_find_host-within}
use prizma.Tls.{tls_find_ext, tls_find_ext_len, tls_advance_to_host_in_sni}
use prizma.Tls.Bounds.{find_ext-fits, find_ext_len-reads, advance_to_host-fits}
use prizma.Markers.{
  Marker, abs, host, host_end, host_sld, host_midsld, host_endsld, http_method, ext_len, sni_ext,
  back_to_dot, skip_levels, find_nld, check_pos, any_proto_pos, is_host_mark, in_sld, host_mark,
  host_pos, tls_pos, capitals, skip_line_end, method_pos, line_length, is_host, http_host_pos,
  http_pos, Payload, http_req, tls_client_hello, any_payload, resolve_pos,
}

-- A position below `sz`.
abbrev pub Below : ℕ → Out ℕ → Type 0
Below sz = Ensures (λ (p : ℕ). p < sz)

-- A number, whatever its value.
abbrev pub Reads : Out ℕ → Type 0
Reads = Ensures (λ (p : ℕ). Unit {0})

check_pos-Below : (sz offset : ℕ) → Below sz (check_pos sz offset)
unfolding check_pos
check_pos-Below sz offset =
    Ensures-if (ltb offset (2 ^ 63) && ltb offset sz) _ _ (λ h. returns (ground arith))
      (λ _. refuses)

any_proto_pos-Below : (m : Marker) (pos sz : ℕ) → Below sz (any_proto_pos m pos sz)
unfolding any_proto_pos
any_proto_pos-Below abs pos sz =
    check_pos-Below sz (if leb (2 ^ 63) pos then wrap64 (sz + pos) else pos)
any_proto_pos-Below host pos sz = refuses
any_proto_pos-Below host_end pos sz = refuses
any_proto_pos-Below host_sld pos sz = refuses
any_proto_pos-Below host_midsld pos sz = refuses
any_proto_pos-Below host_endsld pos sz = refuses
any_proto_pos-Below http_method pos sz = refuses
any_proto_pos-Below ext_len pos sz = refuses
any_proto_pos-Below sni_ext pos sz = refuses

in_sld-Reads : (m : Marker) (p slen : ℕ) → Reads (in_sld m p slen)
in_sld-Reads abs p slen = refuses
in_sld-Reads host p slen = refuses
in_sld-Reads host_end p slen = refuses
in_sld-Reads host_sld p slen = returns tt
in_sld-Reads host_midsld p slen = returns tt
in_sld-Reads host_endsld p slen = returns tt
in_sld-Reads http_method p slen = refuses
in_sld-Reads ext_len p slen = refuses
in_sld-Reads sni_ext p slen = refuses

module _ (buf : List ℕ) where
  back_to_dot-le :
      (d k p : ℕ) → d + k ≤ length buf → p ≤ k - 1 → Ensures (λ q. q ≤ p) (back_to_dot buf d p)
  unfolding back_to_dot
  back_to_dot-le d k zero le h = returns (omega arith)
  back_to_dot-le d k (suc p) le h = Ensures-read buf (d + suc p) _ (omega arith) (
      Ensures-if (byte_at buf (d + suc p) == b'.') _ _ (λ _. returns (omega arith))
        (λ _. Ensures-weaken (λ q j. omega arith) (back_to_dot-le d k p le (omega arith))))

  skip_levels-le :
      (d n p2 : ℕ) → d + p2 ≤ length buf → Ensures (λ q. q ≤ p2) (skip_levels buf d n p2)
  unfolding skip_levels
  skip_levels-le d zero p2 le = returns (omega arith)
  skip_levels-le d (suc n) p2 le =
      Ensures-bind (back_to_dot buf d (p2 - 1)) _ (back_to_dot-le d p2 (p2 - 1) le (omega arith))
        λ q h.
          Ensures-guard (not (q == 0)) _
            λ _. Ensures-weaken (λ r j. omega arith) (skip_levels-le d n q (omega arith))

  -- The domain of a level lies inside the name.
  pub find_nld-fits :
      (d dlen level : ℕ)
      → d + dlen ≤ length buf
      → Ensures (λ e. (d ≤ e.at) × (e.at + e.len ≤ d + dlen)) (find_nld buf d dlen level)
  unfolding find_nld
  find_nld-fits d dlen level le = Ensures-guard (leb 1 level) _ λ _.
      Ensures-bind (skip_levels buf d (level - 1) dlen) _ (skip_levels-le d (level - 1) dlen le)
        λ p2 h. Ensures-guard (not (p2 == 0)) _ λ some_left.
          Ensures-bind (back_to_dot buf d (p2 - 1)) _
            (back_to_dot-le d p2 (p2 - 1) (omega arith) (omega arith))
            λ q j.
              Ensures-read buf (d + q) _ (ground arith)
                (let c = byte_at buf (d + q) in returns (ground arith, ground arith))

  -- The second level domain of a host.
  sld-Reads :
      (m : Marker) (d sz offset_host len_host : ℕ)
      → d + sz ≤ length buf
      → Reads (
          guard (leb (offset_host + len_host) sz)
          >> (find_nld buf (d + offset_host) len_host 2 >>= λ e. in_sld m (e.at - d) e.len))
  sld-Reads m d sz offset_host len_host le = Ensures-guard (leb (offset_host + len_host) sz) _ λ g.
      Ensures-bind (find_nld buf (d + offset_host) len_host 2) _
        (find_nld-fits (d + offset_host) len_host 2 (ground arith))
        λ e _. in_sld-Reads m (e.at - d) e.len

  host_mark-Reads :
      (m : Marker) (d sz offset_host len_host : ℕ)
      → d + sz ≤ length buf
      → Reads (host_mark m buf d sz offset_host len_host)
  unfolding host_mark
  host_mark-Reads abs d sz o l le = sld-Reads abs d sz o l le
  host_mark-Reads host d sz o l le = returns tt
  host_mark-Reads host_end d sz o l le = returns tt
  host_mark-Reads host_sld d sz o l le = sld-Reads host_sld d sz o l le
  host_mark-Reads host_midsld d sz o l le = sld-Reads host_midsld d sz o l le
  host_mark-Reads host_endsld d sz o l le = sld-Reads host_endsld d sz o l le
  host_mark-Reads http_method d sz o l le = sld-Reads http_method d sz o l le
  host_mark-Reads ext_len d sz o l le = sld-Reads ext_len d sz o l le
  host_mark-Reads sni_ext d sz o l le = sld-Reads sni_ext d sz o l le

  host_pos-Below :
      (m : Marker) (pos d sz offset_host len_host : ℕ)
      → d + sz ≤ length buf
      → Below sz (host_pos m pos buf d sz offset_host len_host)
  unfolding host_pos
  host_pos-Below m pos d sz offset_host len_host le =
      Ensures-bind (host_mark m buf d sz offset_host len_host) _
        (host_mark-Reads m d sz offset_host len_host le)
        λ offset _. check_pos-Below sz (wrap64 (offset + pos))

  capitals-le : (p n : ℕ) → p + n ≤ length buf → Ensures (λ m. m ≤ n) (capitals buf p n)
  unfolding capitals
  capitals-le p zero le = returns (omega arith)
  capitals-le p (suc n) le = Ensures-read buf p _ (omega arith) (
      let c = byte_at buf p in
      Ensures-if (leb b'A' c && leb c b'Z') _ _
        (λ _. Ensures-weaken (λ m h. omega arith) (capitals-le (p + 1) n (omega arith)))
        (λ _. returns (omega arith)))

  skip_line_end-le :
      (p : ℕ) → p < length buf → Ensures (λ q. (p ≤ q) × (q ≤ p + 1)) (skip_line_end buf p)
  unfolding skip_line_end
  skip_line_end-le p h =
      Ensures-read buf p _ h (let c = byte_at buf p in returns (ground arith, ground arith))

  method_pos-Below : (pos d sz : ℕ) → d + sz ≤ length buf → Below sz (method_pos pos buf d sz)
  unfolding method_pos
  method_pos-Below pos d sz le = Ensures-guard (leb 12 sz) _ λ g.
      Ensures-bind (skip_line_end buf d) _ (skip_line_end-le d (ground arith)) λ m1 h1.
        Ensures-bind (skip_line_end buf m1) _ (skip_line_end-le m1 (ground arith)) λ m2 h2.
          Ensures-bind (capitals buf m2 9) _ (capitals-le m2 9 (ground arith)) λ left h.
            Ensures-read buf (m2 + (9 - left)) _ (ground arith) (
              let c = byte_at buf (m2 + (9 - left)) in
              Ensures-guard (not (ltb (9 - left) 3 || not (c == b' '))) _
                λ _. check_pos-Below sz (wrap64 (m2 - d + pos)))

  line_length-le : (p n : ℕ) → p + n ≤ length buf → Ensures (λ l. l ≤ n) (line_length buf p n)
  unfolding line_length
  line_length-le p zero le = returns (omega arith)
  line_length-le p (suc n) le = Ensures-read buf p _ (omega arith) (
      let c = byte_at buf p in
      Ensures-if (c == 13 || c == 10) _ _ (λ _. returns (omega arith))
        (λ _.
          Ensures-bind (line_length buf (p + 1) n) _ (line_length-le (p + 1) n (omega arith))
            λ l h. returns (omega arith)))

  http_host_pos-Below :
      (m : Marker) (pos d sz : ℕ) → d + sz ≤ length buf → Below sz (http_host_pos m pos buf d sz)
  unfolding http_host_pos
  http_host_pos-Below m pos d sz le =
      Ensures-bind (http_find_host buf d sz) _ (http_find_host-within buf d sz le) λ h f.
        let inside = f.1 in
        Ensures-guard (ltb (h - d + 7) sz) _ λ g. Ensures-read buf (h + 5) _ (ground arith) (
          let c = byte_at buf (h + 5) in
          let start = if c == b' ' || c == 9 then h + 6 else h + 5 in
          Ensures-bind (if is_host m then ok 0 else line_length buf start (sz - (start - d))) _
            (Ensures-if {P = λ (l : ℕ). Unit {0}} (is_host m) _ _ (λ _. returns tt)
              (λ _.
                Ensures-weaken (λ l j. tt)
                  (line_length-le start (sz - (start - d)) (ground arith))))
            λ len_host _. host_pos-Below m pos d sz (start - d) len_host le)

  http_mark-Below :
      (m : Marker) (pos d sz : ℕ)
      → d + sz ≤ length buf
      → Below sz (if is_host_mark m then http_host_pos m pos buf d sz else any_proto_pos m pos sz)
  http_mark-Below m pos d sz le =
      Ensures-if (is_host_mark m) _ _ (λ _. http_host_pos-Below m pos d sz le)
        (λ _. any_proto_pos-Below m pos sz)

  http_pos-Below :
      (m : Marker) (pos d sz : ℕ) → d + sz ≤ length buf → Below sz (http_pos m pos buf d sz)
  unfolding http_pos
  http_pos-Below abs pos d sz le = http_mark-Below abs pos d sz le
  http_pos-Below host pos d sz le = http_mark-Below host pos d sz le
  http_pos-Below host_end pos d sz le = http_mark-Below host_end pos d sz le
  http_pos-Below host_sld pos d sz le = http_mark-Below host_sld pos d sz le
  http_pos-Below host_midsld pos d sz le = http_mark-Below host_midsld pos d sz le
  http_pos-Below host_endsld pos d sz le = http_mark-Below host_endsld pos d sz le
  http_pos-Below http_method pos d sz le = method_pos-Below pos d sz le
  http_pos-Below ext_len pos d sz le = http_mark-Below ext_len pos d sz le
  http_pos-Below sni_ext pos d sz le = http_mark-Below sni_ext pos d sz le

  module _ (bytes : IsBytes buf) where
    tls_mark-Below :
        (m : Marker) (pos d sz : ℕ)
        → d + sz ≤ length buf
        → Below sz (
            if is_host_mark m
            then (do
              e ← tls_find_ext buf d sz 0 true
              name ← tls_advance_to_host_in_sni buf e
              host_pos m pos buf d sz (name.at - d) name.len)
            else any_proto_pos m pos sz)
    tls_mark-Below m pos d sz le =
        Ensures-if (is_host_mark m) _ _
          (λ _.
            Ensures-bind (tls_find_ext buf d sz 0 true) _ (find_ext-fits buf bytes d sz 0 true le)
              λ e f.
                Ensures-bind (tls_advance_to_host_in_sni buf e) _
                  (advance_to_host-fits buf bytes e (omega arith))
                  λ name _. host_pos-Below m pos d sz (name.at - d) name.len le)
          (λ _. any_proto_pos-Below m pos sz)

    tls_pos-Below :
        (m : Marker) (pos d sz : ℕ) → d + sz ≤ length buf → Below sz (tls_pos m pos buf d sz)
    unfolding tls_pos
    tls_pos-Below sni_ext pos d sz le =
        Ensures-bind (tls_find_ext buf d sz 0 true) _ (find_ext-fits buf bytes d sz 0 true le)
          λ e _. check_pos-Below sz (wrap64 (e.at - d + pos))
    tls_pos-Below ext_len pos d sz le =
        Ensures-bind (tls_find_ext_len buf d sz) _ (find_ext_len-reads buf bytes d sz le)
          λ offset _. check_pos-Below sz (wrap64 (offset + pos))
    tls_pos-Below abs pos d sz le = tls_mark-Below abs pos d sz le
    tls_pos-Below host pos d sz le = tls_mark-Below host pos d sz le
    tls_pos-Below host_end pos d sz le = tls_mark-Below host_end pos d sz le
    tls_pos-Below host_sld pos d sz le = tls_mark-Below host_sld pos d sz le
    tls_pos-Below host_midsld pos d sz le = tls_mark-Below host_midsld pos d sz le
    tls_pos-Below host_endsld pos d sz le = tls_mark-Below host_endsld pos d sz le
    tls_pos-Below http_method pos d sz le = tls_mark-Below http_method pos d sz le

-- For a payload that lies in a buffer of bytes, every marker and every offset, resolving the position
-- reads nothing outside the payload, and a position that is found lies inside it.
pub resolve_pos-Below :
    (buf : List ℕ) (d sz : ℕ) (payload : Payload) (m : Marker) (pos : ℕ)
    → IsBytes buf
    → d + sz ≤ length buf
    → Below sz (resolve_pos buf d sz payload m pos)
unfolding resolve_pos
resolve_pos-Below buf d sz http_req m pos b le = http_pos-Below buf m pos d sz le
resolve_pos-Below buf d sz tls_client_hello m pos b le = tls_pos-Below buf b m pos d sz le
resolve_pos-Below buf d sz any_payload m pos b le = any_proto_pos-Below m pos sz
