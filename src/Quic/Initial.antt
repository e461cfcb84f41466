-- ===== src/Quic/Initial.antt =====
-- nfq2/protocol.c: where `IsQUICInitial` and `IsQUICCryptoHello` read.
use Prim.Native.Nat.{bit_and}
use prizma.Base.{
  leb→le, ℕ, ◌+◌, ◌≤◌, ◌<◌, ◌≡◌, Bool, true, false, not, ◌||◌, List, Out, ok, ◌>>=◌, ltb, leb, ◌==◌,
  if◌then◌else◌, read, byte_at, length, arith, Ensures, returns, Ensures-bind, Ensures-if,
  Ensures-read, Ensures-guard, wrap64,
}
use prizma.Bytes.Value.{IsBytes, pntoh32-eq}
use prizma.Tls.{is_tls_handshake_client_hello}
use prizma.Tls.Bounds.{is_tls_handshake_client_hello-length}
use prizma.Quic.{
  Varint, tvb_get_varint, tvb_get_size, is_quic_crypto_hello, is_quic_v2, quic_draft_version,
  quic_is_long_header, quic_extract_version, quic_max_cid_length, is_quic_initial,
}
use prizma.Quic.Integers.{rfc_varint, Ensures-varint}

module _ (buf : List ℕ) (d len : ℕ) (bytes : IsBytes buf) (le : d + len ≤ length buf) where
  long-length : Ensures (λ b. b ≡ true → 9 ≤ len) (quic_is_long_header buf d len)
  unfolding quic_is_long_header
  long-length =
      Ensures-if (leb 9 len) _ (ok false)
        (λ h. Ensures-read buf d _ (ground arith) (returns (λ _. ground arith)))
        (λ _. returns (λ e. cc))

  version-Answers : Ensures (λ (v : ℕ). Unit {0}) (quic_extract_version buf d len)
  unfolding quic_extract_version
  version-Answers = Ensures-bind (quic_is_long_header buf d len) _ long-length λ b h.
      Ensures-if b _ (ok 0)
        (λ e. rw (pntoh32-eq buf (d + 1) bytes (omega (arith, h e))) (returns tt)) (λ _. returns tt)

  varint :
      {B : Type 0} {Q : B → Type 0} (p : ℕ) (k : Varint → Out B)
      → p < len
      → p + tvb_get_size (byte_at buf (d + p)) ≤ len
      → Ensures Q (k (rfc_varint buf (d + p) (tvb_get_size (byte_at buf (d + p)))))
      → Ensures Q (tvb_get_varint buf (d + p) >>= k)
  varint p k h f e = Ensures-varint buf (d + p) bytes k (omega arith) (omega arith) e

  -- From the length of the payload on.
  payload-Answers :
      (p : ℕ)
      → p < len
      → Ensures
          (λ (b : Bool). Unit {0})
          (read buf (d + p) >>= λ s. if ltb len (p + tvb_get_size s) then ok false else (do
            w ← tvb_get_varint buf (d + p)
            ok (leb (wrap64 (p + tvb_get_size s + w.value)) len)))
  payload-Answers p h = Ensures-read buf (d + p) _ (omega arith) (
      let s = byte_at buf (d + p) in
      Ensures-if (ltb len (p + tvb_get_size s)) (ok false) _ (λ _. returns tt)
        λ g. varint p _ h (ground arith) (returns tt))

  -- From the length of the token on.
  token-Answers :
      (token : ℕ)
      → token < len
      → Ensures
          (λ (b : Bool). Unit {0})
          (read buf (d + token) >>= λ t. if ltb len (token + tvb_get_size t) then ok false else (do
            v ← tvb_get_varint buf (d + token)
            let payload = wrap64 (token + v.size + v.value)
            if leb len payload then ok false else (do
              s ← read buf (d + payload)
              if ltb len (payload + tvb_get_size s) then ok false else (do
                w ← tvb_get_varint buf (d + payload)
                ok (leb (wrap64 (payload + tvb_get_size s + w.value)) len)))))
  token-Answers token h = Ensures-read buf (d + token) _ (omega arith) (
      let t = byte_at buf (d + token) in
      let v = rfc_varint buf (d + token) (tvb_get_size t) in
      let payload = wrap64 (token + v.size + v.value) in
      Ensures-if (ltb len (token + tvb_get_size t)) (ok false) _ (λ _. returns tt)
        λ g. varint token _ h (ground arith) (
          Ensures-if (leb len payload) (ok false) _ (λ _. returns tt)
            λ g'. payload-Answers payload (ground arith)))

  -- For a packet that lies in a buffer of bytes, the test for an initial packet of QUIC reads nothing
  -- outside it.
  is_quic_initial-Answers : Ensures (λ (b : Bool). Unit {0}) (is_quic_initial buf d len)
  unfolding is_quic_initial
  is_quic_initial-Answers =
      Ensures-if (ltb len 128) (ok false) _ (λ _. returns tt)
        λ h. Ensures-bind (quic_extract_version buf d len) _ version-Answers λ ver _.
          Ensures-read buf d _ (ground arith) (
            Ensures-read buf (d + 5) _ (ground arith) (
              let b0 = byte_at buf d in
              let n = byte_at buf (d + 5) in
              let scid = 5 + (1 + n) in
              Ensures-if
                (ltb (quic_draft_version ver) 11
                  || not (bit_and b0 0xf0 == (if is_quic_v2 ver then 0xd0 else 0xc0))
                  || ltb quic_max_cid_length n
                  || leb len scid)
                (ok false) _ (λ _. returns tt)
                λ g. Ensures-read buf (d + scid) _ (ground arith) (
                  let m = byte_at buf (d + scid) in
                  let token = scid + (1 + m) in
                  Ensures-if (ltb quic_max_cid_length m || leb len token) (ok false) _
                    (λ _. returns tt) λ g'. token-Answers token (ground arith))))

  -- For a packet that lies in a buffer of bytes, the hello that is found in a CRYPTO frame lies inside it,
  -- and nothing outside it is read.
  is_quic_crypto_hello-fits : Ensures (λ h. h.offset + h.len ≤ len) (is_quic_crypto_hello buf d len)
  unfolding is_quic_crypto_hello
  is_quic_crypto_hello-fits = Ensures-guard (leb 3 len) _ λ h. Ensures-read buf d _ (ground arith) (
      Ensures-guard (byte_at buf d == 6) _ λ six. Ensures-read buf (d + 1) _ (ground arith) (
        let n = tvb_get_size (byte_at buf (d + 1)) in
        Ensures-guard (ltb (1 + n) len) _ λ g. varint 1 _ (ground arith) (ground arith) (
          let coff = rfc_varint buf (d + 1) n in
          Ensures-guard (coff.value == 0) _ λ z. Ensures-read buf (d + (1 + n)) _ (ground arith) (
            let m = tvb_get_size (byte_at buf (d + (1 + n))) in
            Ensures-guard (ltb (1 + n + m) len) _ λ g'.
              varint (1 + n) _ (ground arith) (ground arith) (
                let clen = rfc_varint buf (d + (1 + n)) m in
                Ensures-guard (leb (1 + n + m + clen.value) len) _ λ g2.
                  Ensures-bind (is_tls_handshake_client_hello buf (d + (1 + n + m)) clen.value true)
                    _
                    (is_tls_handshake_client_hello-length buf bytes (d + (1 + n + m)) clen.value
                      true (ground arith))
                    λ hello _. Ensures-guard hello _ λ _. returns (leb→le _ _ g2))))))
