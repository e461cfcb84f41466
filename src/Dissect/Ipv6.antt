-- ===== src/Dissect/Ipv6.antt =====
-- nfq2/darkmagic.c: the loop of `proto_skip_ipv6` over extension headers.
use prizma.Base.{
  ℕ, zero, suc, ◌+◌, ◌-◌, ◌^◌, ◌≤◌, ◌<◌, ◌≡◌, refl, false, not, ◌&&◌, ◌||◌, List, ok, ltb, ◌==◌,
  if◌then◌else◌, byte_at, length, sub64, arith, Ensures, returns, Ensures-if, Ensures-weaken,
  Ensures-bind, Ensures-read,
}
use prizma.Bytes.Value.{IsBytes, big_endian, Ensures-pntoh16}
use prizma.Dissect.{
  Skip, Header, stop, advance, is_options, ipv6_header, ipv6_headers, proto_skip_ipv6,
}

-- The rest of the packet that a skip leaves ends at `e` at the latest.
abbrev pub EndsBy : ℕ → Skip → Type 0
EndsBy e s = s.at + s.len ≤ e

-- A round of the loop over extension headers moves past a header of the same rest, or stops there.
abbrev Round : ℕ → Skip → Header → Type 0
Round e s (stop s') = EndsBy e s' × (s.at ≤ s'.at)
Round e s (advance h s') = (s'.at ≡ s.at) × (s'.len ≡ s.len) × (0 < h)

module _ (buf : List ℕ) (bytes : IsBytes buf) where
  ipv6_header-Round :
      (s : Skip) (t e : ℕ) → e ≤ length buf → EndsBy e s → Ensures (Round e s) (ipv6_header buf s t)
  unfolding ipv6_header
  ipv6_header-Round s t e h k =
      let stay : Ensures (Round e s) (ok (stop s)) = returns (k, omega arith) in
      Ensures-if (is_options t) _ _
        (λ _.
          Ensures-if (ltb s.len 2) _ _ (λ _. stay)
            λ more.
              Ensures-read buf (s.at + 1) _ (ground arith) (returns (refl, refl, omega arith)))
        λ _.
          Ensures-if (t == 44) _ _
            (λ _.
              Ensures-if (ltb s.len 8) _ _ (λ _. stay)
                λ more.
                  Ensures-pntoh16 buf (s.at + 2) _ bytes (ground arith)
                    (returns (refl, refl, omega arith)))
            λ _.
              Ensures-if (t == 51) _ _
                (λ _.
                  Ensures-if (ltb s.len 2) _ _ (λ _. stay)
                    λ more.
                      Ensures-read buf (s.at + 1) _ (ground arith)
                        (returns (refl, refl, omega arith)))
                λ _. Ensures-if (t == 59) _ _ (λ _. stay) (λ _. returns (k, omega arith))

  ipv6_headers-EndsBy :
      (fuel : ℕ) (s : Skip) (t e : ℕ)
      → s.len < fuel
      → e ≤ length buf
      → EndsBy e s
      → Ensures (λ s'. EndsBy e s' × (s.at ≤ s'.at)) (ipv6_headers fuel buf s t)
  unfolding ipv6_headers
  ipv6_headers-EndsBy zero s t e f h k = absurd (omega arith)
  ipv6_headers-EndsBy (suc fuel) s t e f h k =
      Ensures-if (s.len == 0 || s.frag && not (s.frag_off == 0)) _ _ (λ _. returns (k, omega arith))
        λ more. Ensures-bind (ipv6_header buf s t) _ (ipv6_header-Round s t e h k) (elim [
          | stop s' ↦ λ r. returns r
          | advance hdr s' ↦ λ r.
              Ensures-if (ltb s'.len hdr) _ _ (λ _. returns (omega arith))
                λ fits. Ensures-read buf s'.at _ (ground arith) (
                  Ensures-weaken (λ a p. (p.0, omega arith))
                    (ipv6_headers-EndsBy fuel (record s' { at = s'.at + hdr; len = s'.len - hdr })
                      (byte_at buf s'.at) e (ground arith) h (ground arith)))
        ])

  pub proto_skip_ipv6-EndsBy :
      (len : ℕ)
      → 40 ≤ len
      → len ≤ length buf
      → len < 2 ^ 16
      → Ensures (λ s. EndsBy len s × (40 ≤ s.at)) (proto_skip_ipv6 buf 0 len)
  unfolding proto_skip_ipv6
  proto_skip_ipv6-EndsBy len ge le small =
      let rest = sub64 len 40 in
      let l = if ltb (big_endian buf 4 2) rest then big_endian buf 4 2 else rest in
      let l_le : l ≤ len - 40 = ground arith in
      Ensures-read buf 6 _ (omega arith) (
        Ensures-pntoh16 buf 4 _ bytes (omega arith) (
          ipv6_headers-EndsBy (l + 1)
            (record { at = 40; len = l; proto = byte_at buf 6; frag = false; frag_off = 0 })
            (byte_at buf 6) len (omega arith) le (omega arith)))
