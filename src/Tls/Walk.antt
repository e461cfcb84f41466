-- ===== src/Tls/Walk.antt =====
-- nfq2/protocol.c: the loop of `TLSFindExtInHandshake`, and the list that its bytes stand for.
use mathlib.Core.List.{append_assoc}
use prizma.Base.{
  ℕ, zero, suc, ◌+◌, ◌-◌, ◌*◌, ◌/◌, ◌%◌, ◌^◌, ◌≤◌, ◌<◌, ◌≡◌, ◌∙◌, ap, sym, refl, true, false, List,
  [], ◌∷◌, ◌++◌, Out, ok, no, ltb, leb, ◌==◌, if◌then◌else◌, byte_at, length, length-append,
  get_or-append_right, arith,
}
use prizma.Bytes.Value.{IsBytes, big_endian, pntoh16-eq}
use prizma.Tls.{Ext, walk}

-- An extension: its type and its content.
pub record Extension : Type 0 where
  pub type : ℕ
  pub content : List ℕ

abbrev pub encode : List Extension → List ℕ
encode [] = []
encode (x ∷ xs) =
    x.type / 256
    ∷ x.type % 256
    ∷ length x.content / 256
    ∷ length x.content % 256
    ∷ (x.content ++ encode xs)

-- The type and the length fit their two bytes.
abbrev pub Fits : List Extension → Type 0
Fits [] = Unit
Fits (x ∷ xs) = (x.type < 2 ^ 16) × (length x.content < 2 ^ 16) × Fits xs

-- The first extension of a type, if the encoding begins at `p`.
abbrev pub first : List Extension → ℕ → ℕ → Out Ext
first [] p type = no
first (x ∷ xs) p type =
    if x.type == type
    then ok (record { at = p + 4; len = length x.content })
    else first xs (p + 4 + length x.content) type

-- One turn of the loop, at an extension of type `t` with `n` bytes of content.
walk-turn :
    (fuel : ℕ) (buf : List ℕ) (d l type t n : ℕ)
    → IsBytes buf
    → d + 4 ≤ length buf
    → big_endian buf d 2 ≡ t
    → big_endian buf (d + 2) 2 ≡ n
    → n + 4 ≤ l
    → walk (suc fuel) buf d l type ≡ (
        if t == type
        then ok (record { at = d + 4; len = n })
        else walk fuel buf (d + 4 + n) (l - 4 - n) type)
unfolding walk
walk-turn fuel buf d l type t n b fits et en le =
    let four : leb 4 l ≡ true = ground arith in
    let long : ltb (l - 4) n ≡ false = ground arith in
    rw
      (four, pntoh16-eq buf d b (omega arith), pntoh16-eq buf (d + 2) b (omega arith), et, en, long)
      refl

-- A byte of a buffer whose first part is known.
byte_at-append :
    (pre mid : List ℕ) (i d : ℕ) → d ≡ length pre + i → byte_at (pre ++ mid) d ≡ byte_at mid i
byte_at-append pre mid i d e =
    ap (λ (k : ℕ). byte_at (pre ++ mid) k) e ∙ get_or-append_right pre mid i 0

big_endian-append :
    (pre rest : List ℕ) (a b d : ℕ)
    → d ≡ length pre
    → big_endian (pre ++ (a ∷ b ∷ rest)) d 2 ≡ a * 2 ^ 8 + b
big_endian-append pre rest a b d e = omega (
  arith,
  byte_at-append pre (a ∷ b ∷ rest) 0 (d + 0) (omega arith),
  byte_at-append pre (a ∷ b ∷ rest) 1 (d + 1) (omega arith),
)

regroup :
    (pre h c es post : List ℕ)
    → pre ++ ((h ++ (c ++ es)) ++ post) ≡ (pre ++ (h ++ c)) ++ (es ++ post)
regroup pre h c es post = simp append_assoc

walk-first_at :
    (xs : List Extension) (fuel : ℕ) (buf pre post : List ℕ) (d l type : ℕ)
    → IsBytes buf
    → Fits xs
    → buf ≡ pre ++ (encode xs ++ post)
    → d ≡ length pre
    → l ≡ length (encode xs)
    → l < fuel
    → walk fuel buf d l type ≡ first xs d type
unfolding walk
walk-first_at [] (suc fuel) buf pre post d l type b f e ed el lt = ground arith
walk-first_at (x ∷ xs) (suc fuel) buf pre post d l type b f e ed el lt =
    let n = length x.content in
    let head = x.type / 256 ∷ x.type % 256 ∷ n / 256 ∷ n % 256 ∷ [] in
    let whole : length buf ≡ length pre + (4 + (length (x.content ++ encode xs) + length post)) =
      ap length e
      ∙ length-append pre (encode (x ∷ xs) ++ post)
      ∙ omega (arith, length-append (x.content ++ encode xs) post) in
    let kind : big_endian buf d 2 ≡ x.type =
      ap (λ (t : List ℕ). big_endian t d 2) e
      ∙ big_endian-append pre (n / 256 ∷ n % 256 ∷ ((x.content ++ encode xs) ++ post)) _ _ d ed
      ∙ omega arith in
    let size : big_endian buf (d + 2) 2 ≡ n =
      ap (λ (t : List ℕ). big_endian t (d + 2) 2)
        (e ∙ sym (append_assoc pre (x.type / 256 ∷ x.type % 256 ∷ []) _))
      ∙ big_endian-append (pre ++ (x.type / 256 ∷ x.type % 256 ∷ []))
          ((x.content ++ encode xs) ++ post) _ _ (d + 2)
          (omega (arith, length-append pre (x.type / 256 ∷ x.type % 256 ∷ [])))
      ∙ omega arith in
    let rest : length (x.content ++ encode xs) ≡ n + length (encode xs) =
      length-append x.content (encode xs) in
    walk-turn fuel buf d l type x.type n b (omega arith) kind size (omega arith)
    ∙ ap (λ (r : Out Ext). if x.type == type then ok (record { at = d + 4; len = n }) else r)
        (walk-first_at xs fuel buf (pre ++ (head ++ x.content)) post (d + 4 + n) (l - 4 - n) type b
          f.2 (e ∙ regroup pre head x.content (encode xs) post)
          (omega (arith, length-append pre (head ++ x.content), length-append head x.content))
          (omega arith) (omega arith))
walk-first_at xs zero buf pre post d l type b f e ed el lt = absurd (omega arith)

-- Extensions whose types and lengths fit two bytes are found in their encoding, wherever it stands in
-- a buffer of bytes: the loop returns where the content of the first one of the type begins and how
-- long it is, or refuses when there is none. The fuel that the caller gives is enough.
pub walk-first :
    (xs : List Extension) (pre post : List ℕ) (type : ℕ)
    → IsBytes (pre ++ (encode xs ++ post))
    → Fits xs
    → walk
        (length (encode xs) + 1)
        (pre ++ (encode xs ++ post))
        (length pre)
        (length (encode xs))
        type
      ≡ first xs (length pre) type
walk-first xs pre post type b f =
    walk-first_at xs (length (encode xs) + 1) _ pre post _ _ type b f refl refl refl (omega arith)
