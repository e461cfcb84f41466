-- ===== src/Classify/Bounds.antt =====
-- nfq2/protocol.c: where the tests on fixed bytes read.
use prizma.Base.{
  ℕ, ◌+◌, ◌-◌, ◌≤◌, ◌<◌, ◌≡◌, Bool, true, false, List, [], ◌∷◌, Out, ok, ◌>>=◌, ltb, leb, ◌==◌,
  read, length, byte_at, arith, Ensures, returns, Ensures-bind, Ensures-if, Ensures-read,
  Ensures-weaken,
}
use prizma.Bytes.{pntoh16, pntoh32}
use prizma.Bytes.Value.{IsBytes, big_endian, Ensures-pntoh16, pntoh32-eq}
use prizma.Classify.{
  when, mem_eq, is_xmpp_start_tls, is_xmpp_proceed_tls, is_xmpp_features, is_dns_query,
  is_dns_response, is_wireguard_handshake_initiation, is_wireguard_handshake_response,
  is_wireguard_handshake_cookie, is_wireguard_data, is_wireguard_keepalive, is_dht,
  is_discord_ip_discovery_request, is_stun_message, is_dtls, is_dtls_client_hello,
  is_dtls_server_hello, is_bt_handshake, is_utp_bt_handshake, is_http_reply,
}

-- A test that returns, whatever its answer.
abbrev pub Answers : Out Bool → Type 0
Answers = Ensures (λ (b : Bool). Unit {0})

when-Answers : (b : Bool) (m : Out Bool) → (b ≡ true → Answers m) → Answers (when b m)
when-Answers b m h = Ensures-if b m (ok false) h (λ _. returns tt)

pub mem_eq-Answers :
    (buf : List ℕ) (p : ℕ) (s : List ℕ) → p + length s ≤ length buf → Answers (mem_eq buf p s)
unfolding mem_eq
mem_eq-Answers buf p [] h = returns tt
mem_eq-Answers buf p (c ∷ cs) h = Ensures-read buf p _ (omega arith) (
    Ensures-bind (mem_eq buf (p + 1) cs) _ (mem_eq-Answers buf (p + 1) cs (omega arith))
      (λ _ _. returns tt))

-- `mem_eq` followed by something that answers.
mem_eq-then :
    (buf : List ℕ) (p : ℕ) (s : List ℕ) (k : Bool → Out Bool)
    → p + length s ≤ length buf
    → ((b : Bool) → Answers (k b))
    → Answers (mem_eq buf p s >>= k)
mem_eq-then buf p s k h f = Ensures-bind (mem_eq buf p s) k (mem_eq-Answers buf p s h) (λ b _. f b)

module _ (buf : List ℕ) (d len : ℕ) (bytes : IsBytes buf) (le : d + len ≤ length buf) where
  byte :
      (i : ℕ) (k : ℕ → Out Bool)
      → i < len
      → Answers (k (byte_at buf (d + i)))
      → Answers (read buf (d + i) >>= k)
  byte i k h f = Ensures-read buf (d + i) k (omega arith) f

  half :
      (i : ℕ) (k : ℕ → Out Bool)
      → i + 2 ≤ len
      → Answers (k (big_endian buf (d + i) 2))
      → Answers (pntoh16 buf (d + i) >>= k)
  half i k h f = Ensures-pntoh16 buf (d + i) k bytes (omega arith) f

  word :
      (p : ℕ) (k : ℕ → Out Bool)
      → p + 4 ≤ length buf
      → Answers (k (big_endian buf p 4))
      → Answers (pntoh32 buf p >>= k)
  word p k h f = rw (pntoh32-eq buf p bytes h) f

  is_xmpp_start_tls-Answers : Answers (is_xmpp_start_tls buf d len)
  unfolding is_xmpp_start_tls
  is_xmpp_start_tls-Answers =
      when-Answers (leb 10 len) _ λ enough. mem_eq-Answers buf (d) _ (ground arith)

  is_xmpp_proceed_tls-Answers : Answers (is_xmpp_proceed_tls buf d len)
  unfolding is_xmpp_proceed_tls
  is_xmpp_proceed_tls-Answers =
      when-Answers (leb 9 len) _ λ enough. mem_eq-Answers buf (d) _ (ground arith)

  is_xmpp_features-Answers : Answers (is_xmpp_features buf d len)
  unfolding is_xmpp_features
  is_xmpp_features-Answers =
      when-Answers (leb 17 len) _ λ enough. mem_eq-Answers buf (d) _ (ground arith)

  is_bt_handshake-Answers : Answers (is_bt_handshake buf d len)
  unfolding is_bt_handshake
  is_bt_handshake-Answers =
      when-Answers (leb 68 len) _ λ enough. mem_eq-Answers buf (d) _ (ground arith)

  is_dns_query-Answers : Answers (is_dns_query buf d len)
  unfolding is_dns_query
  is_dns_query-Answers = when-Answers (leb 12 len) _ λ enough.
      byte 2 _ (ground arith)
        (mem_eq-then buf (d + 4) _ _ (ground arith) λ c. half 10 _ (ground arith) (returns tt))

  is_dns_response-Answers : Answers (is_dns_response buf d len)
  unfolding is_dns_response
  is_dns_response-Answers = when-Answers (leb 12 len) _ λ enough. byte 2 _ (ground arith) (
      half 4 _ (ground arith)
        (half 6 _ (ground arith) (half 8 _ (ground arith) (half 10 _ (ground arith) (returns tt)))))

  is_wireguard_handshake_initiation-Answers : Answers (is_wireguard_handshake_initiation buf d len)
  unfolding is_wireguard_handshake_initiation
  is_wireguard_handshake_initiation-Answers =
      when-Answers (len == 148) _ λ enough. word d _ (ground arith) (returns tt)

  is_wireguard_handshake_response-Answers : Answers (is_wireguard_handshake_response buf d len)
  unfolding is_wireguard_handshake_response
  is_wireguard_handshake_response-Answers =
      when-Answers (len == 92) _ λ enough. word d _ (ground arith) (returns tt)

  is_wireguard_handshake_cookie-Answers : Answers (is_wireguard_handshake_cookie buf d len)
  unfolding is_wireguard_handshake_cookie
  is_wireguard_handshake_cookie-Answers =
      when-Answers (len == 64) _ λ enough. word d _ (ground arith) (returns tt)

  is_wireguard_data-Answers : Answers (is_wireguard_data buf d len)
  unfolding is_wireguard_data
  is_wireguard_data-Answers =
      when-Answers (leb 52 len) _ λ enough. word d _ (ground arith) (returns tt)

  is_wireguard_keepalive-Answers : Answers (is_wireguard_keepalive buf d len)
  unfolding is_wireguard_keepalive
  is_wireguard_keepalive-Answers =
      when-Answers (len == 32) _ λ enough. word d _ (ground arith) (returns tt)

  is_dht-Answers : Answers (is_dht buf d len)
  unfolding is_dht
  is_dht-Answers = when-Answers (leb 5 len) _ λ enough. Ensures-read buf d _ (ground arith) (
      byte 1 _ (ground arith) (
        byte 2 _ (ground arith) (
          byte 3 _ (ground arith)
            (byte 4 _ (ground arith) (byte (len - 1) _ (ground arith) (returns tt))))))

  is_discord_ip_discovery_request-Answers : Answers (is_discord_ip_discovery_request buf d len)
  unfolding is_discord_ip_discovery_request
  is_discord_ip_discovery_request-Answers = when-Answers (len == 74) _ λ enough.
      mem_eq-then buf d _ _ (ground arith)
        λ c. mem_eq-then buf (d + 8) _ _ (ground arith) λ z. returns tt

  is_stun_message-Answers : Answers (is_stun_message buf d len)
  unfolding is_stun_message
  is_stun_message-Answers = when-Answers (leb 20 len) _ λ enough.
      Ensures-read buf d _ (ground arith) (
        byte 3 _ (ground arith)
          (word (d + 4) _ (ground arith) (half 2 _ (ground arith) (returns tt))))

  is_utp_bt_handshake-Answers : Answers (is_utp_bt_handshake buf d len)
  unfolding is_utp_bt_handshake
  is_utp_bt_handshake-Answers = when-Answers (leb 88 len) _ λ enough.
      Ensures-read buf d _ (ground arith)
        (mem_eq-then buf (d + 20) _ _ (ground arith) λ z. returns tt)

  is_http_reply-Answers : Answers (is_http_reply buf d len)
  unfolding is_http_reply
  is_http_reply-Answers = when-Answers (ltb 14 len) _ λ enough.
      mem_eq-then buf d _ _ (ground arith) λ v. byte 7 _ (ground arith) (
        byte 8 _ (ground arith) (
          byte 9 _ (ground arith)
            (byte 10 _ (ground arith) (byte 11 _ (ground arith) (returns tt)))))

  -- DTLS needs a header of 13 bytes and something behind it.
  is_dtls-length : Ensures (λ b. b ≡ true → 13 < len) (is_dtls buf d len)
  unfolding is_dtls
  is_dtls-length =
      Ensures-if (ltb 13 len) _ (ok false)
        (λ enough.
          Ensures-weaken (λ b u e. ground arith)
            (Ensures-read buf d _ (ground arith) (
              byte 1 _ (ground arith)
                (byte 2 _ (ground arith) (half 11 _ (ground arith) (returns tt))))))
        (λ _. returns (λ e. cc))

  is_dtls-Answers : Answers (is_dtls buf d len)
  is_dtls-Answers = Ensures-weaken (λ b h. tt) is_dtls-length

  is_dtls_client_hello-Answers : Answers (is_dtls_client_hello buf d len)
  unfolding is_dtls_client_hello
  is_dtls_client_hello-Answers = Ensures-bind (is_dtls buf d len) _ is_dtls-length λ dtls h.
      when-Answers dtls _
        λ is. Ensures-read buf d _ (omega (arith, h is)) (byte 13 _ (h is) (returns tt))

  is_dtls_server_hello-Answers : Answers (is_dtls_server_hello buf d len)
  unfolding is_dtls_server_hello
  is_dtls_server_hello-Answers = Ensures-bind (is_dtls buf d len) _ is_dtls-length λ dtls h.
      when-Answers dtls _
        λ is. Ensures-read buf d _ (omega (arith, h is)) (byte 13 _ (h is) (returns tt))

-- For a payload that lies in a buffer of bytes, each of the tests answers: none reads outside it.
pub tests-Answers :
    (buf : List ℕ) (d len : ℕ)
    → IsBytes buf
    → d + len ≤ length buf
    → Answers (is_xmpp_start_tls buf d len)
      × Answers (is_xmpp_proceed_tls buf d len)
      × Answers (is_xmpp_features buf d len)
      × Answers (is_dns_query buf d len)
      × Answers (is_dns_response buf d len)
      × Answers (is_wireguard_handshake_initiation buf d len)
      × Answers (is_wireguard_handshake_response buf d len)
      × Answers (is_wireguard_handshake_cookie buf d len)
      × Answers (is_wireguard_data buf d len)
      × Answers (is_wireguard_keepalive buf d len)
      × Answers (is_dht buf d len)
      × Answers (is_discord_ip_discovery_request buf d len)
      × Answers (is_stun_message buf d len)
      × Answers (is_dtls buf d len)
      × Answers (is_dtls_client_hello buf d len)
      × Answers (is_dtls_server_hello buf d len)
      × Answers (is_bt_handshake buf d len)
      × Answers (is_utp_bt_handshake buf d len)
      × Answers (is_http_reply buf d len)
tests-Answers buf d len b le = (
  is_xmpp_start_tls-Answers buf d len b le,
  is_xmpp_proceed_tls-Answers buf d len b le,
  is_xmpp_features-Answers buf d len b le,
  is_dns_query-Answers buf d len b le,
  is_dns_response-Answers buf d len b le,
  is_wireguard_handshake_initiation-Answers buf d len b le,
  is_wireguard_handshake_response-Answers buf d len b le,
  is_wireguard_handshake_cookie-Answers buf d len b le,
  is_wireguard_data-Answers buf d len b le,
  is_wireguard_keepalive-Answers buf d len b le,
  is_dht-Answers buf d len b le,
  is_discord_ip_discovery_request-Answers buf d len b le,
  is_stun_message-Answers buf d len b le,
  is_dtls-Answers buf d len b le,
  is_dtls_client_hello-Answers buf d len b le,
  is_dtls_server_hello-Answers buf d len b le,
  is_bt_handshake-Answers buf d len b le,
  is_utp_bt_handshake-Answers buf d len b le,
  is_http_reply-Answers buf d len b le,
)
