-- ===== src/Classify.antt =====
-- nfq2/protocol.c: the tests that recognise a payload by its first bytes. `a && b`, where `b` reads,
-- is `when a b`. The offset `d` stands for the pointer.
pub mod Bounds
pub mod Exclusive
mod Tests
use Prim.Native.Nat.{bit_and}
use prizma.Base.{
  ℕ, ◌+◌, ◌-◌, ◌*◌, ◌/◌, Bool, true, false, ◌&&◌, ◌||◌, List, [], ◌∷◌, ◌++◌, Out, ok, ◌>>=◌, ltb,
  leb, ◌==◌, if◌then◌else◌, read, replicate,
}
use prizma.Bytes.{pntoh16, pntoh32}

abbrev pub when : Bool → Out Bool → Out Bool
when b m = if b then m else ok false

-- `!memcmp(data + p, "…", n)`
pub mem_eq : List ℕ → ℕ → List ℕ → Out Bool
mem_eq buf p [] = ok true
mem_eq buf p (c ∷ cs) = do b ← read buf p; rest ← mem_eq buf (p + 1) cs; ok (b == c && rest)

pub is_xmpp_start_tls : List ℕ → ℕ → ℕ → Out Bool
is_xmpp_start_tls buf d len =
    when (leb 10 len)
      (mem_eq buf d (b'<' ∷ b's' ∷ b't' ∷ b'a' ∷ b'r' ∷ b't' ∷ b't' ∷ b'l' ∷ b's' ∷ b' ' ∷ []))

pub is_xmpp_proceed_tls : List ℕ → ℕ → ℕ → Out Bool
is_xmpp_proceed_tls buf d len =
    when (leb 9 len)
      (mem_eq buf d (b'<' ∷ b'p' ∷ b'r' ∷ b'o' ∷ b'c' ∷ b'e' ∷ b'e' ∷ b'd' ∷ b' ' ∷ []))

pub is_xmpp_features : List ℕ → ℕ → ℕ → Out Bool
is_xmpp_features buf d len = when (leb 17 len) (
    mem_eq buf d (
      b'<' ∷ b's' ∷ b't' ∷ b'r' ∷ b'e' ∷ b'a' ∷ b'm' ∷ b':' ∷ b'f' ∷ b'e' ∷ b'a' ∷ b't' ∷ b'u'
      ∷ b'r' ∷ b'e' ∷ b's' ∷ []))

pub is_dns_query : List ℕ → ℕ → ℕ → Out Bool
is_dns_query buf d len = when (leb 12 len) (do
  flags ← read buf (d + 2)
  counts ← mem_eq buf (d + 4) (0 ∷ 1 ∷ 0 ∷ 0 ∷ 0 ∷ 0 ∷ [])
  additional ← pntoh16 buf (d + 10)
  ok (bit_and flags 0xfe == 0 && counts && leb additional 3))

pub is_dns_response : List ℕ → ℕ → ℕ → Out Bool
is_dns_response buf d len = when (leb 12 len) (do
  flags ← read buf (d + 2)
  questions ← pntoh16 buf (d + 4)
  answers ← pntoh16 buf (d + 6)
  authority ← pntoh16 buf (d + 8)
  additional ← pntoh16 buf (d + 10)
  ok (
      bit_and flags 0xf8 == 0x80
      && questions == 1
      && leb answers 100
      && leb authority 100
      && leb additional 100))

pub is_wireguard_handshake_initiation : List ℕ → ℕ → ℕ → Out Bool
is_wireguard_handshake_initiation buf d len =
    when (len == 148) (do v ← pntoh32 buf d; ok (v == 0x0100_0000))

pub is_wireguard_handshake_response : List ℕ → ℕ → ℕ → Out Bool
is_wireguard_handshake_response buf d len =
    when (len == 92) (do v ← pntoh32 buf d; ok (v == 0x0200_0000))

pub is_wireguard_handshake_cookie : List ℕ → ℕ → ℕ → Out Bool
is_wireguard_handshake_cookie buf d len =
    when (len == 64) (do v ← pntoh32 buf d; ok (v == 0x0300_0000))

pub is_wireguard_data : List ℕ → ℕ → ℕ → Out Bool
is_wireguard_data buf d len = when (leb 52 len) (do v ← pntoh32 buf d; ok (v == 0x0400_0000))

pub is_wireguard_keepalive : List ℕ → ℕ → ℕ → Out Bool
is_wireguard_keepalive buf d len = when (len == 32) (do v ← pntoh32 buf d; ok (v == 0x0400_0000))

pub is_dht : List ℕ → ℕ → ℕ → Out Bool
is_dht buf d len = when (leb 5 len) (do
  b0 ← read buf d
  b1 ← read buf (d + 1)
  b2 ← read buf (d + 2)
  b3 ← read buf (d + 3)
  b4 ← read buf (d + 4)
  last ← read buf (d + (len - 1))
  ok (
      b0 == b'd'
      && b2 == b':'
      && last == b'e'
      && (b1 == b'1' && b3 == b'a' && b4 == b'd'
          || b1 == b'1' && b3 == b'r' && b4 == b'd'
          || b1 == b'2' && b3 == b'i' && b4 == b'p'
          || b1 == b'1' && b3 == b'e' && b4 == b'l')))

pub is_discord_ip_discovery_request : List ℕ → ℕ → ℕ → Out Bool
is_discord_ip_discovery_request buf d len = when (len == 74) (do
  head ← mem_eq buf d (0 ∷ 1 ∷ 0 ∷ 70 ∷ [])
  zeros ← mem_eq buf (d + 8) (replicate 64 0)
  ok (head && zeros))

pub is_stun_message : List ℕ → ℕ → ℕ → Out Bool
is_stun_message buf d len = when (leb 20 len) (do
  b0 ← read buf d
  b3 ← read buf (d + 3)
  magic ← pntoh32 buf (d + 4)
  size ← pntoh16 buf (d + 2)
  ok (bit_and b0 0xc0 == 0 && bit_and b3 3 == 0 && magic == 0x2112_a442 && leb size (len - 20)))

pub is_dtls : List ℕ → ℕ → ℕ → Out Bool
is_dtls buf d len = when (ltb 13 len) (do
  b0 ← read buf d
  b1 ← read buf (d + 1)
  b2 ← read buf (d + 2)
  size ← pntoh16 buf (d + 11)
  ok (
      leb 0x14 b0
      && leb b0 0x17
      && (b1 == 0xfe && b2 == 0xff
          || b1 == 0xfe && b2 == 0xfd
          || b1 == 0xfe && b2 == 0xfc
          || b1 == 1 && b2 == 0)
      && leb (size + 13) len))

pub is_dtls_client_hello : List ℕ → ℕ → ℕ → Out Bool
is_dtls_client_hello buf d len = is_dtls buf d len >>= λ dtls.
    when dtls (do b0 ← read buf d; b13 ← read buf (d + 13); ok (b0 == 0x16 && b13 == 1))

pub is_dtls_server_hello : List ℕ → ℕ → ℕ → Out Bool
is_dtls_server_hello buf d len = is_dtls buf d len >>= λ dtls.
    when dtls (do b0 ← read buf d; b13 ← read buf (d + 13); ok (b0 == 0x16 && b13 == 2))

-- The byte 19 and `BitTorrent protocol`.
abbrev pub bt_name : List ℕ
bt_name =
    19 ∷ b'B' ∷ b'i' ∷ b't' ∷ b'T' ∷ b'o' ∷ b'r' ∷ b'r' ∷ b'e' ∷ b'n' ∷ b't' ∷ b' ' ∷ b'p' ∷ b'r'
    ∷ b'o' ∷ b't' ∷ b'o' ∷ b'c' ∷ b'o' ∷ b'l' ∷ []

pub is_bt_handshake : List ℕ → ℕ → ℕ → Out Bool
is_bt_handshake buf d len = when (leb 68 len) (mem_eq buf d bt_name)

pub is_utp_bt_handshake : List ℕ → ℕ → ℕ → Out Bool
is_utp_bt_handshake buf d len =
    when (leb 88 len) (do b0 ← read buf d; name ← mem_eq buf (d + 20) bt_name; ok (b0 == 1 && name))

abbrev pub digit : ℕ → Bool
digit c = leb b'0' c && leb c b'9'

pub is_http_reply : List ℕ → ℕ → ℕ → Out Bool
is_http_reply buf d len = when (ltb 14 len) (do
  version ← mem_eq buf d (b'H' ∷ b'T' ∷ b'T' ∷ b'P' ∷ b'/' ∷ b'1' ∷ b'.' ∷ [])
  b7 ← read buf (d + 7)
  b8 ← read buf (d + 8)
  b9 ← read buf (d + 9)
  b10 ← read buf (d + 10)
  b11 ← read buf (d + 11)
  ok (version && (b7 == b'0' || b7 == b'1') && b8 == b' ' && digit b9 && digit b10 && digit b11))
