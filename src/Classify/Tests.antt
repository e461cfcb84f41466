-- ===== src/Classify/Tests.antt =====
-- A WireGuard message that keeps a connection alive.
use prizma.Base.{ℕ, ◌+◌, ◌≤◌, ◌≡◌, refl, true, List, ◌∷◌, ok, replicate, arith}
use prizma.Bytes.{pntoh32}
use prizma.Bytes.Value.{all_bytes-IsBytes}
use prizma.Classify.{
  is_xmpp_start_tls, is_xmpp_proceed_tls, is_xmpp_features, is_dns_query, is_dns_response,
  is_wireguard_handshake_initiation, is_wireguard_handshake_response, is_wireguard_handshake_cookie,
  is_wireguard_data, is_wireguard_keepalive, is_dht, is_discord_ip_discovery_request,
  is_stun_message, is_dtls, is_dtls_client_hello, is_dtls_server_hello, is_bt_handshake,
  is_utp_bt_handshake, is_http_reply,
}
use prizma.Classify.Bounds.{Answers, tests-Answers}
use prizma.Classify.Exclusive.{hit, tests-exclusive}

abbrev keepalive : List ℕ
keepalive = 4 ∷ replicate 31 0

recognised : is_wireguard_keepalive keepalive 0 32 ≡ ok true
unfolding is_wireguard_keepalive pntoh32
recognised = refl

tests-Answers_example :
    Answers (is_xmpp_start_tls keepalive 0 32)
    × Answers (is_xmpp_proceed_tls keepalive 0 32)
    × Answers (is_xmpp_features keepalive 0 32)
    × Answers (is_dns_query keepalive 0 32)
    × Answers (is_dns_response keepalive 0 32)
    × Answers (is_wireguard_handshake_initiation keepalive 0 32)
    × Answers (is_wireguard_handshake_response keepalive 0 32)
    × Answers (is_wireguard_handshake_cookie keepalive 0 32)
    × Answers (is_wireguard_data keepalive 0 32)
    × Answers (is_wireguard_keepalive keepalive 0 32)
    × Answers (is_dht keepalive 0 32)
    × Answers (is_discord_ip_discovery_request keepalive 0 32)
    × Answers (is_stun_message keepalive 0 32)
    × Answers (is_dtls keepalive 0 32)
    × Answers (is_dtls_client_hello keepalive 0 32)
    × Answers (is_dtls_server_hello keepalive 0 32)
    × Answers (is_bt_handshake keepalive 0 32)
    × Answers (is_utp_bt_handshake keepalive 0 32)
    × Answers (is_http_reply keepalive 0 32)
tests-Answers_example =
    tests-Answers keepalive 0 32 (all_bytes-IsBytes keepalive refl) (omega arith)

tests-exclusive_example :
    (hit (is_wireguard_handshake_initiation keepalive 0 32)
        + hit (is_wireguard_handshake_response keepalive 0 32)
        + hit (is_wireguard_handshake_cookie keepalive 0 32)
        + hit (is_wireguard_data keepalive 0 32)
        + hit (is_wireguard_keepalive keepalive 0 32)
      ≤ 1)
    × (hit (is_dns_query keepalive 0 32) + hit (is_dns_response keepalive 0 32) ≤ 1)
tests-exclusive_example = tests-exclusive keepalive 0 32
