-- ===== src/Tls/Bounds.antt =====
-- nfq2/protocol.c: where the TLS parser reads, and what it returns.
use prizma.Base.{
  read, read-in_range, ℕ, zero, suc, ◌+◌, ◌-◌, ◌≤◌, ◌<◌, ◌≡◌, Bool, true, false, ◌&&◌, ◌||◌, not,
  List, Out, ok, ltb, leb, ◌==◌, if◌then◌else◌, byte_at, length, arith, Ensures, returns, refuses,
  Ensures-bind, Ensures-if, Ensures-read, Ensures-guard, Ensures-weaken, refl,
}
use prizma.Bytes.{pntoh16}
use prizma.Bytes.Value.{IsBytes, big_endian, Ensures-pntoh16, pntoh24-eq, pntoh16-eq}
use prizma.Tls.{
  tls_find_ext_len, is_tls_handshake_client_hello, Ext, tls_handshake_len, is_tls_handshake_full,
  tls_record_len, is_tls_record_full, is_hello_type, is_tls_handshake_hello, is_tls_hello,
  tls_find_ext_len_offset_in_handshake, walk, tls_find_ext_in_handshake, tls_find_ext,
  tls_advance_to_host_in_sni, copy_lower, tls_extract_host_from_ext, tls_hello_extract_host,
}

-- A test that returns, whatever its answer.
abbrev Answers : Out Bool → Type 0
Answers = Ensures (λ (b : Bool). Unit {0})

module _ (buf : List ℕ) (bytes : IsBytes buf) where
  is_tls_handshake_full-Answers :
      (d len : ℕ) → d + 4 ≤ length buf → Answers (is_tls_handshake_full buf d len)
  unfolding is_tls_handshake_full tls_handshake_len
  is_tls_handshake_full-Answers d len le =
      rw (pntoh24-eq buf (d + 1) bytes (omega arith)) (returns tt)

  is_tls_record_full-Answers :
      (d len : ℕ) → 5 ≤ len → d + len ≤ length buf → Answers (is_tls_record_full buf d len)
  unfolding is_tls_record_full tls_record_len
  is_tls_record_full-Answers d len ge le =
      rw (pntoh16-eq buf (d + 3) bytes (omega arith)) (returns tt)

  is_tls_handshake_hello-length :
      (d len type : ℕ) (p : Bool)
      → d + len ≤ length buf
      → Ensures (λ b. b ≡ true → 6 ≤ len) (is_tls_handshake_hello buf d len type p)
  unfolding is_tls_handshake_hello
  is_tls_handshake_hello-length d len type p le =
      Ensures-if (leb 6 len) _ _
        (λ ge. Ensures-read buf d _ (ground arith) (
          Ensures-read buf (d + 4) _ (ground arith) (
            Ensures-read buf (d + 5) _ (ground arith) (
              Ensures-if
                (is_hello_type type (byte_at buf d)
                  && byte_at buf (d + 4) == 3
                  && leb (byte_at buf (d + 5)) 3)
                _ _
                (λ _.
                  Ensures-weaken (λ b u e. ground arith)
                    (Ensures-if p _ _ (λ _. returns tt)
                      (λ _. is_tls_handshake_full-Answers d len (ground arith))))
                (λ _. returns (λ e. cc))))))
        (λ _. returns (λ e. cc))

  pub is_tls_handshake_client_hello-length :
      (d len : ℕ) (p : Bool)
      → d + len ≤ length buf
      → Ensures (λ b. b ≡ true → 6 ≤ len) (is_tls_handshake_client_hello buf d len p)
  unfolding is_tls_handshake_client_hello
  is_tls_handshake_client_hello-length d len p le = is_tls_handshake_hello-length d len 1 p le

  -- A hello has at least eleven bytes.
  pub is_tls_hello-length :
      (d len type : ℕ) (p : Bool)
      → d + len ≤ length buf
      → Ensures (λ b. b ≡ true → 11 ≤ len) (is_tls_hello buf d len type p)
  unfolding is_tls_hello
  is_tls_hello-length d len type p le =
      Ensures-if (leb 6 len) _ _
        (λ ge. Ensures-read buf d _ (ground arith) (
          Ensures-read buf (d + 1) _ (ground arith) (
            Ensures-read buf (d + 2) _ (ground arith) (
              Ensures-bind _ _
                (Ensures-if p _ _ (λ _. returns tt)
                  (λ _. is_tls_record_full-Answers d len (ground arith) le))
                λ full u.
                  Ensures-if
                    (byte_at buf d == 0x16
                      && byte_at buf (d + 1) == 3
                      && leb (byte_at buf (d + 2)) 3
                      && full)
                    _ _
                    (λ _.
                      Ensures-weaken (λ b f e. omega (arith, f e))
                        (is_tls_handshake_hello-length (d + 5) (len - 5) type p (ground arith)))
                    (λ _. returns (λ e. cc))))))
        (λ _. returns (λ e. cc))

  any16 : (p : ℕ) → p + 2 ≤ length buf → Ensures (λ v. Unit {0}) (pntoh16 buf p)
  any16 p h = rw (pntoh16-eq buf p bytes h) (returns tt)

  any8 : (p : ℕ) → p + 1 ≤ length buf → Ensures (λ v. Unit {0}) (read buf p)
  any8 p h = rw (read-in_range buf p (omega arith)) (returns tt)

  optional :
      (b : Bool) (m : Out ℕ)
      → Ensures (λ v. Unit {0}) m
      → Ensures (λ v. Unit {0}) (if b then m else ok 0)
  optional true m e = e
  optional false m e = returns tt

  pub ext_len_offset-fits :
      (d len : ℕ)
      → d + len ≤ length buf
      → Ensures (λ off. off + 2 ≤ len) (tls_find_ext_len_offset_in_handshake buf d len)
  unfolding tls_find_ext_len_offset_in_handshake
  ext_len_offset-fits d len le = Ensures-guard (leb (38 + 1) len) _ λ g1.
      Ensures-read buf (d + 38) _ (ground arith) (
        let l1 = 38 + (byte_at buf (d + 38) + 1) in
        Ensures-guard (leb (l1 + 2) len) _ λ g2. Ensures-read buf d _ (ground arith) (
          let client = byte_at buf d == 1 in
          Ensures-bind (if client then pntoh16 buf (d + l1) else ok 0) _
            (optional client (pntoh16 buf (d + l1)) (any16 (d + l1) (ground arith)))
            λ suites u.
              let l2 = l1 + suites + 2 in
              Ensures-guard (leb (l2 + 1) len) _ λ g3.
                Ensures-bind (if client then read buf (d + l2) else ok 0) _
                  (optional client (read buf (d + l2)) (any8 (d + l2) (ground arith)))
                  λ methods v.
                    Ensures-guard (leb (l2 + methods + 1 + 2) len) _ λ g4. returns (ground arith)))

  -- Every extension that the walk finds ends where the list of extensions does, at the latest.
  pub walk-fits :
      (fuel d l type e : ℕ)
      → l < fuel
      → d + l ≤ e
      → e ≤ length buf
      → Ensures (λ x. x.at + x.len ≤ e) (walk fuel buf d l type)
  unfolding walk
  walk-fits zero d l type e f k h = absurd (omega arith)
  walk-fits (suc fuel) d l type e f k h =
      Ensures-if (leb 4 l) _ _
        (λ ge. Ensures-pntoh16 buf d _ bytes (ground arith) (
          Ensures-pntoh16 buf (d + 2) _ bytes (ground arith) (
            let elen = big_endian buf (d + 2) 2 in
            Ensures-if (ltb (l - 4) elen) _ _ (λ _. refuses)
              λ fits.
                Ensures-if (big_endian buf d 2 == type) _ _ (λ _. returns (ground arith))
                  λ _.
                    walk-fits fuel (d + 4 + elen) (l - 4 - elen) type e (ground arith)
                      (ground arith) h)))
        (λ _. refuses)

  pub find_ext_in_handshake-fits :
      (d len type : ℕ) (p : Bool)
      → d + 4 ≤ length buf
      → d + len ≤ length buf
      → Ensures (λ x. x.at + x.len ≤ d + len) (tls_find_ext_in_handshake buf d len type p)
  unfolding tls_find_ext_in_handshake
  find_ext_in_handshake-fits d len type p ge le =
      Ensures-bind (if p then ok true else is_tls_handshake_full buf d len) _
        (Ensures-if p _ _ (λ _. returns tt) (λ _. is_tls_handshake_full-Answers d len ge))
        λ full u. Ensures-guard full _ λ g. Ensures-bind _ _ (ext_len_offset-fits d len le) λ off f.
          Ensures-pntoh16 buf (d + off) _ bytes (omega arith) (
            let l = big_endian buf (d + off) 2 in
            let left = len - off - 2 in
            let l' = if ltb left l then left else l in
            Ensures-guard (p || leb l left) _ λ g2.
              walk-fits (l' + 1) (d + off + 2) l' type (d + len) (omega arith) (ground arith) le)

  pub find_ext-fits :
      (d len type : ℕ) (p : Bool)
      → d + len ≤ length buf
      → Ensures (λ x. x.at + x.len ≤ d + len) (tls_find_ext buf d len type p)
  unfolding tls_find_ext tls_record_len
  find_ext-fits d len type p le =
      Ensures-bind (is_tls_hello buf d len 0 p) _ (is_tls_hello-length d len 0 p le) λ hello h.
        Ensures-guard hello _ λ g.
          let ge : 11 ≤ len = h g in
          rw (pntoh16-eq buf (d + 3) bytes (omega arith)) (
            let reclen = big_endian buf (d + 3) 2 + 5 in
            let len' = if ltb reclen len then reclen else len in
            Ensures-weaken (λ x f. ground arith)
              (find_ext_in_handshake-fits (d + 5) (len' - 5) type p (omega arith) (ground arith)))

  pub find_ext_len-reads :
      (d len : ℕ)
      → d + len ≤ length buf
      → Ensures (λ (off : ℕ). Unit {0}) (tls_find_ext_len buf d len)
  unfolding tls_find_ext_len
  find_ext_len-reads d len le = Ensures-guard (leb 5 len) _ λ g.
      Ensures-bind (tls_find_ext_len_offset_in_handshake buf (d + 5) (len - 5)) _
        (ext_len_offset-fits (d + 5) (len - 5) (ground arith)) λ off _. returns tt

  pub advance_to_host-fits :
      (e : Ext)
      → e.at + e.len ≤ length buf
      → Ensures
          (λ x. (e.at + 5 ≤ x.at) × (x.at + x.len ≤ e.at + e.len))
          (tls_advance_to_host_in_sni buf e)
  unfolding tls_advance_to_host_in_sni
  advance_to_host-fits e le = Ensures-guard (leb 5 e.len) _ λ g.
      Ensures-read buf (e.at + 2) _ (ground arith) (
        Ensures-guard (byte_at buf (e.at + 2) == 0) _ λ k.
          Ensures-pntoh16 buf e.at _ bytes (ground arith) (
            Ensures-pntoh16 buf (e.at + 3) _ bytes (ground arith) (
              let nll = big_endian buf e.at 2 in
              let slen = big_endian buf (e.at + 3) 2 in
              Ensures-guard (not (ltb nll (slen + 3) || ltb (e.len - 2) nll)) _
                λ q. returns (ground arith))))

  copy_lower-length :
      (p n : ℕ) → p + n ≤ length buf → Ensures (λ s. length s ≡ n) (copy_lower buf p n)
  unfolding copy_lower
  copy_lower-length p zero le = returns refl
  copy_lower-length p (suc n) le = Ensures-read buf p _ (omega arith) (
      Ensures-bind (copy_lower buf (p + 1) n) _ (copy_lower-length (p + 1) n (omega arith))
        λ rest e. returns (omega arith))

  extract_host_from_ext-length :
      (e : Ext) (len_host : ℕ)
      → e.at + e.len ≤ length buf
      → Ensures
          (λ s. (length s ≤ len_host - 1) × (length s ≤ e.len))
          (tls_extract_host_from_ext buf e len_host)
  unfolding tls_extract_host_from_ext
  extract_host_from_ext-length e len_host le =
      Ensures-bind (tls_advance_to_host_in_sni buf e) _ (advance_to_host-fits e le) λ name f.
        Ensures-if (len_host == 0) _ _ (λ _. returns (omega arith))
          λ some_room.
            Ensures-weaken (λ s h. ground arith)
              (copy_lower-length name.at (if leb len_host name.len then len_host - 1 else name.len)
                (ground arith))

-- For every message in a buffer of bytes, whole or partial, extracting the host name of a TLS hello
-- reads nothing outside the buffer, and the name that it stores has at most `len_host - 1` bytes, so
-- that the final zero fits.
pub tls_hello_extract_host-length :
    (buf : List ℕ) (d len len_host : ℕ) (partial_is_ok : Bool)
    → IsBytes buf
    → d + len ≤ length buf
    → Ensures
        (λ s. length s ≤ len_host - 1)
        (tls_hello_extract_host buf d len len_host partial_is_ok)
unfolding tls_hello_extract_host
tls_hello_extract_host-length buf d len len_host p bytes le =
    Ensures-bind (tls_find_ext buf d len 0 p) _ (find_ext-fits buf bytes d len 0 p le) λ e f.
      Ensures-weaken (λ s h. h.0) (extract_host_from_ext-length buf bytes e len_host (omega arith))
