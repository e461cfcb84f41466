-- ===== src/Http/Tests.antt =====
-- A small request.
use prizma.Base.{ℕ, ◌-◌, ◌≡◌, refl, List, [], ◌∷◌, ok, arith}
use prizma.Http.{http_find_host, find_host_in, host_in, is_host_at}
use prizma.Http.Bounds.{Search, http_find_host-Search}

abbrev request : List ℕ
request =
    b'G' ∷ b'E' ∷ b'T' ∷ b' ' ∷ b'/' ∷ b' ' ∷ b'H' ∷ b'T' ∷ b'T' ∷ b'P' ∷ b'/' ∷ b'1' ∷ b'.' ∷ b'1'
    ∷ 13 ∷ 10 ∷ b'H' ∷ b'o' ∷ b's' ∷ b't' ∷ b':' ∷ b' ' ∷ b'a' ∷ b'.' ∷ b'b' ∷ b'c' ∷ 13 ∷ 10 ∷ []

host_found : http_find_host request 0 28 ≡ ok 16
unfolding http_find_host find_host_in host_in is_host_at
host_found = refl

http_find_host-Search_example : Search request 1 0 (28 - 5) (http_find_host request 0 28)
http_find_host-Search_example = http_find_host-Search request 0 28 (omega arith)
