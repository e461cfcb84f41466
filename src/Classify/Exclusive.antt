-- ===== src/Classify/Exclusive.antt =====
-- nfq2/protocol.c: the tests for WireGuard and for DNS, taken together.
use Prim.Native.Nat.{bit_and}
use prizma.Base.{
  ℕ, ◌+◌, ◌≤◌, ◌≡◌, ◌≢◌, refl, Bool, true, false, ◌&&◌, List, [], ◌∷◌, Out, ok, no, fault, ◌>>=◌,
  leb, ◌==◌, if◌then◌else◌, read, arith,
}
use prizma.Base.Bits.{bit_and_field}
use prizma.Bytes.{pntoh16, pntoh32}
use prizma.Classify.{
  when, mem_eq, is_dns_query, is_dns_response, is_wireguard_handshake_initiation,
  is_wireguard_handshake_response, is_wireguard_handshake_cookie, is_wireguard_data,
  is_wireguard_keepalive,
}

-- 1 for a test that recognises the payload.
abbrev pub hit : Out Bool → ℕ
hit (ok true) = 1
hit (ok false) = 0
hit no = 0
hit fault = 0

hit-when : (g b : Bool) → hit (when g (ok b)) ≡ (if g && b then 1 else 0)
hit-when true true = refl
hit-when true false = refl
hit-when false b = refl

hit-when_no : (g : Bool) → hit (when g no) ≡ 0
hit-when_no true = refl
hit-when_no false = refl

hit-when_fault : (g : Bool) → hit (when g fault) ≡ 0
hit-when_fault true = refl
hit-when_fault false = refl

-- The five tests on the word that the payload begins with.
wireguard_hits :
    (r : Out ℕ) (len : ℕ)
    → hit (when (len == 148) (r >>= λ v. ok (v == 0x0100_0000)))
        + hit (when (len == 92) (r >>= λ v. ok (v == 0x0200_0000)))
        + hit (when (len == 64) (r >>= λ v. ok (v == 0x0300_0000)))
        + hit (when (leb 52 len) (r >>= λ v. ok (v == 0x0400_0000)))
        + hit (when (len == 32) (r >>= λ v. ok (v == 0x0400_0000)))
      ≤ 1
wireguard_hits (ok v) len =
    let a = hit-when (len == 148) (v == 0x0100_0000) in
    let b = hit-when (len == 92) (v == 0x0200_0000) in
    let c = hit-when (len == 64) (v == 0x0300_0000) in
    let d = hit-when (leb 52 len) (v == 0x0400_0000) in
    let e = hit-when (len == 32) (v == 0x0400_0000) in rw (a, b, c, d, e) (ground arith)
wireguard_hits no len = omega (
  arith,
  hit-when_no (len == 148),
  hit-when_no (len == 92),
  hit-when_no (len == 64),
  hit-when_no (leb 52 len),
  hit-when_no (len == 32),
)
wireguard_hits fault len = omega (
  arith,
  hit-when_fault (len == 148),
  hit-when_fault (len == 92),
  hit-when_fault (len == 64),
  hit-when_fault (leb 52 len),
  hit-when_fault (len == 32),
)

hit-bind {ℓ} :
    {A : Type ℓ} (m : Out A) (k : A → Out Bool) (n : ℕ)
    → ((a : A) → hit (k a) ≤ n)
    → hit (m >>= k) ≤ n
hit-bind (ok a) k n h = h a
hit-bind no k n h = omega arith
hit-bind fault k n h = omega arith

hit-ok : (b : Bool) → hit (ok b) ≡ (if b then 1 else 0)
hit-ok true = refl
hit-ok false = refl

hit-when_le : (g : Bool) (m : Out Bool) (n : ℕ) → hit m ≤ n → hit (when g m) ≤ n
hit-when_le true m n h = h
hit-when_le false m n h = omega arith

-- What the flags allow.
abbrev query_flags : ℕ → ℕ
query_flags f = if bit_and f 0xfe == 0 then 1 else 0

abbrev response_flags : ℕ → ℕ
response_flags f = if bit_and f 0xf8 == 0x80 then 1 else 0

flags-le : (f : ℕ) → query_flags f + response_flags f ≤ 1
flags-le f = ground (arith, bit_and_field 1 7 f, bit_and_field 3 5 f)

module _ (buf : List ℕ) (d len : ℕ) where
  query-le : (f : ℕ) → read buf (d + 2) ≡ ok f → hit (is_dns_query buf d len) ≤ query_flags f
  unfolding is_dns_query
  query-le f e = hit-when_le (leb 12 len) _ _ (
      rw e (
        hit-bind (mem_eq buf (d + 4) (0 ∷ 1 ∷ 0 ∷ 0 ∷ 0 ∷ 0 ∷ [])) _ _ λ c.
          hit-bind (pntoh16 buf (d + 10)) _ _
            λ n. ground (arith, hit-ok (bit_and f 0xfe == 0 && c && leb n 3))))

  response-le :
      (f : ℕ) → read buf (d + 2) ≡ ok f → hit (is_dns_response buf d len) ≤ response_flags f
  unfolding is_dns_response
  response-le f e = hit-when_le (leb 12 len) _ _ (
      rw e (
        hit-bind (pntoh16 buf (d + 4)) _ _ λ q. hit-bind (pntoh16 buf (d + 6)) _ _ λ a.
          hit-bind (pntoh16 buf (d + 8)) _ _ λ u. hit-bind (pntoh16 buf (d + 10)) _ _ λ n. ground (
            arith,
            hit-ok (bit_and f 0xf8 == 0x80 && q == 1 && leb a 100 && leb u 100 && leb n 100),
          )))

  hit-le : (r : Out Bool) → hit r ≤ 1
  hit-le (ok true) = omega arith
  hit-le (ok false) = omega arith
  hit-le no = omega arith
  hit-le fault = omega arith

  unread-le :
      (r : Out ℕ) → read buf (d + 2) ≡ r → ((a : ℕ) → r ≢ ok a) → hit (is_dns_query buf d len) ≤ 0
  unfolding is_dns_query
  unread-le (ok a) e n = absurd (n a refl)
  unread-le no e n = hit-when_le (leb 12 len) _ 0 (rw e (omega arith))
  unread-le fault e n = hit-when_le (leb 12 len) _ 0 (rw e (omega arith))

  dns_hits :
      (r : Out ℕ)
      → read buf (d + 2) ≡ r
      → hit (is_dns_query buf d len) + hit (is_dns_response buf d len) ≤ 1
  dns_hits (ok f) e = omega (arith, query-le f e, response-le f e, flags-le f)
  dns_hits no e = omega (arith, unread-le _ e (λ a q. cc), hit-le (is_dns_response buf d len))
  dns_hits fault e = omega (arith, unread-le _ e (λ a q. cc), hit-le (is_dns_response buf d len))

-- At most one of the five tests for WireGuard recognises a payload, and at most one of those for a query
-- and a response of DNS.
pub tests-exclusive :
    (buf : List ℕ) (d len : ℕ)
    → (hit (is_wireguard_handshake_initiation buf d len)
          + hit (is_wireguard_handshake_response buf d len)
          + hit (is_wireguard_handshake_cookie buf d len)
          + hit (is_wireguard_data buf d len)
          + hit (is_wireguard_keepalive buf d len)
        ≤ 1)
      × (hit (is_dns_query buf d len) + hit (is_dns_response buf d len) ≤ 1)
unfolding is_wireguard_handshake_initiation is_wireguard_handshake_response
    is_wireguard_handshake_cookie is_wireguard_data is_wireguard_keepalive
tests-exclusive buf d len =
    (wireguard_hits (pntoh32 buf d) len, dns_hits buf d len (read buf (d + 2)) refl)
