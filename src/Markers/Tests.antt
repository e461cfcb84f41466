-- ===== src/Markers/Tests.antt =====
-- Positions in a small request.
use prizma.Base.{ℕ, ◌≡◌, refl, List, [], ◌∷◌, ok, arith}
use prizma.Bytes.Value.{all_bytes-IsBytes}
use prizma.Markers.{host_endsld, resolve_pos, http_req, find_nld, skip_levels, back_to_dot}
use prizma.Markers.Bounds.{Below, resolve_pos-Below}

abbrev request : List ℕ
request =
    b'G' ∷ b'E' ∷ b'T' ∷ b' ' ∷ b'/' ∷ b' ' ∷ b'H' ∷ b'T' ∷ b'T' ∷ b'P' ∷ b'/' ∷ b'1' ∷ b'.' ∷ b'1'
    ∷ 13 ∷ 10 ∷ b'H' ∷ b'o' ∷ b's' ∷ b't' ∷ b':' ∷ b' ' ∷ b'a' ∷ b'.' ∷ b'b' ∷ b'c' ∷ 13 ∷ 10 ∷ []

-- The label of the second level of `www.a.bc`.
second_level :
    find_nld (b'w' ∷ b'w' ∷ b'w' ∷ b'.' ∷ b'a' ∷ b'.' ∷ b'b' ∷ b'c' ∷ []) 0 8 2
    ≡ ok (record { at = 4; len = 1 })
unfolding find_nld skip_levels back_to_dot
second_level = refl

resolve_pos-Below_example : Below 28 (resolve_pos request 0 28 http_req host_endsld 1)
resolve_pos-Below_example =
    resolve_pos-Below request 0 28 http_req host_endsld 1 (all_bytes-IsBytes request refl)
      (omega arith)
