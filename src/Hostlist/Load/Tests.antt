-- ===== src/Hostlist/Load/Tests.antt =====
-- Two lines of a list: a name with a capital letter, and one for that name alone.
use prizma.Base.{◌≡◌, refl, Bool, true, false, none, some, List, [], ◌∷◌, length, arith}
use prizma.Hostlist.Load.{System, unopened, is_gap, is_eol, is_comment, is_host_end, add_all}
use prizma.Hostlist.Load.Lines.{add_all-ends}
use prizma.Hostlist.Load.Written.{Line, text, AllLines, AllEntered, add_all-text}
use prizma.Hostlist.Table.{functions}

abbrev disk : System
disk = record {
  memory = λ s. true;
  file_mod_signature = λ s. none;
  file_open_test = λ s. false;
  contents = λ s. unopened;
}

abbrev two_lines : List Line
two_lines =
    record { strict = false; host = b'A' ∷ b'.' ∷ b'b' ∷ [] }
    ∷ record { strict = true; host = b'c' ∷ [] }
    ∷ []

text_of : text two_lines ≡ b'A' ∷ b'.' ∷ b'b' ∷ b'\n' ∷ b'^' ∷ b'c' ∷ b'\n' ∷ []
text_of = refl

plain_lines : AllLines two_lines
unfolding is_host_end is_gap is_eol is_comment
plain_lines = (((refl, (refl, (refl, tt))), (refl, refl)), (((refl, tt), tt), tt))

add_all-text_example :
    (pool' : functions.T) × (add_all functions disk
        (length (text two_lines))
        functions.null
        (text two_lines)
      ≡ some (true, pool'))
    × AllEntered functions disk pool' two_lines
add_all-text_example =
    add_all-text functions disk functions.null two_lines plain_lines (refl, (refl, tt))

add_all-ends_example :
    (r : Bool × functions.T) × (add_all functions disk 7 functions.null (text two_lines) ≡ some r)
add_all-ends_example = add_all-ends functions disk 7 functions.null (text two_lines) (omega arith)
