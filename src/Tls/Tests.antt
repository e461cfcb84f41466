-- ===== src/Tls/Tests.antt =====
-- Runs of the TLS parser on a small client hello.
use prizma.Base.{ℕ, ◌≤◌, ◌≡◌, ◌-◌, refl, false, List, [], ◌∷◌, ◌++◌, ok, Ensures, length, arith}
use prizma.Bytes.Value.{IsBytes, all_bytes-IsBytes}
use prizma.Bytes.{pntoh16, pntoh24}
use prizma.Tls.{
  walk, tls_hello_extract_host, tls_find_ext, is_tls_hello, is_tls_record_full, tls_record_len,
  is_tls_handshake_hello, is_tls_handshake_full, tls_handshake_len, tls_find_ext_in_handshake,
  tls_find_ext_len_offset_in_handshake, tls_extract_host_from_ext, tls_advance_to_host_in_sni,
  copy_lower, tolower, tls_record_data_len, tls_handshake_data_len,
}
use prizma.Tls.Bounds.{tls_hello_extract_host-length}
use prizma.Tls.Walk.{Extension, encode, walk-first}

-- The extension of an empty ticket, then the server name `A.b`.
abbrev extensions : List Extension
extensions =
    record { type = 35; content = [] }
    ∷ record { type = 0; content = 0 ∷ 6 ∷ 0 ∷ 0 ∷ 3 ∷ b'A' ∷ b'.' ∷ b'b' ∷ [] }
    ∷ []

abbrev random : List ℕ
random =
    1 ∷ 2 ∷ 3 ∷ 4 ∷ 5 ∷ 6 ∷ 7 ∷ 8 ∷ 9 ∷ 10 ∷ 11 ∷ 12 ∷ 13 ∷ 14 ∷ 15 ∷ 16 ∷ 17 ∷ 18 ∷ 19 ∷ 20 ∷ 21
    ∷ 22 ∷ 23 ∷ 24 ∷ 25 ∷ 26 ∷ 27 ∷ 28 ∷ 29 ∷ 30 ∷ 31 ∷ 32 ∷ []

abbrev hello : List ℕ
hello =
    0x16
    ∷ 3
    ∷ 1
    ∷ 0
    ∷ 63
    ∷ 1
    ∷ 0
    ∷ 0
    ∷ 59
    ∷ 3
    ∷ 3
    ∷ (random ++ (0 ∷ 0 ∷ 2 ∷ 0x13 ∷ 1 ∷ 1 ∷ 0 ∷ 0 ∷ 16 ∷ encode extensions))

hello-IsBytes : IsBytes hello
hello-IsBytes = all_bytes-IsBytes hello refl

host : tls_hello_extract_host hello 0 68 256 false ≡ ok (b'a' ∷ b'.' ∷ b'b' ∷ [])
unfolding tls_hello_extract_host tls_find_ext is_tls_hello is_tls_record_full tls_record_len
    tls_record_data_len tls_handshake_data_len is_tls_handshake_hello is_tls_handshake_full
    tls_handshake_len tls_find_ext_in_handshake tls_find_ext_len_offset_in_handshake walk
    tls_extract_host_from_ext tls_advance_to_host_in_sni copy_lower tolower pntoh16 pntoh24
host = refl

tls_hello_extract_host-length_example :
    Ensures (λ s. length s ≤ 256 - 1) (tls_hello_extract_host hello 0 68 256 false)
tls_hello_extract_host-length_example =
    tls_hello_extract_host-length hello 0 68 256 false hello-IsBytes (omega arith)

walk-first_example :
    walk 17 ((9 ∷ 9 ∷ []) ++ (encode extensions ++ [])) 2 16 0 ≡ ok (record { at = 10; len = 8 })
walk-first_example =
    walk-first extensions (9 ∷ 9 ∷ []) [] 0
      (all_bytes-IsBytes ((9 ∷ 9 ∷ []) ++ (encode extensions ++ [])) refl)
      (omega arith, omega arith, (omega arith, omega arith, tt))
