-- ===== src/Bytes/Roundtrip.antt =====
-- nfq2/helpers.c: the big-endian writers of `Bytes` followed by the readers.
use mathlib.Core.Path.{subst}
use prizma.Base.{
  true, false, ℕ, zero, suc, ◌+◌, ◌-◌, ◌*◌, ◌/◌, ◌%◌, ◌^◌, ◌≤◌, ◌<◌, ◌≡◌, ◌∙◌, ◌⊎◌, inl, inr, refl,
  sym, ap, List, [], ◌∷◌, Out, ok, byte_at, length, arith, Bool-cases, ltb, ltb→lt, splice, memcpy,
  memcpy-in_range, length-splice, byte_at-splice_below, byte_at-splice_inside, byte_at-splice_above,
  wrap8,
}
use prizma.Base.Bits.{bit_and_mask}
use prizma.Bytes.{
  pntoh16, pntoh24, pntoh32, pntoh48, pntoh64, phton16, phton24, phton32, phton48, phton64,
}
use prizma.Bytes.Value.{
  IsBytes, IsBytes-nil, IsBytes-cons, big_endian, pntoh16-eq, pntoh24-eq, pntoh32-eq, pntoh48-eq,
  pntoh64-eq,
}

module _ (buf : List ℕ) (p : ℕ) (src : List ℕ) (fits : p + length src ≤ length buf) where
  pub splice-IsBytes : IsBytes buf → IsBytes src → IsBytes (splice buf p src)
  splice-IsBytes b s = record {
    at = λ i. elim (Bool-cases (ltb i p)) [
      | inl low ↦ rw (byte_at-splice_below buf p src fits i (ltb→lt _ _ low)) (b.at i)
      | inr low ↦ elim (Bool-cases (ltb i (p + length src))) [
        | inl mid ↦ subst (λ v. v < 256) (sym (inside i low mid)) (s.at (i - p))
        | inr high ↦ rw (byte_at-splice_above buf p src fits i (ground arith)) (b.at i)
      ]
    ];
  }
    where
      inside :
          (i : ℕ)
          → ltb i p ≡ false
          → ltb i (p + length src) ≡ true
          → byte_at (splice buf p src) i ≡ byte_at src (i - p)
      inside i low mid =
          ap (λ (t : ℕ). byte_at (splice buf p src) t) {x = i} {y = p + (i - p)} (ground arith)
          ∙ byte_at-splice_inside buf p src fits (i - p) (ground arith)

  pub big_endian-splice :
      (k : ℕ) → k ≤ length src → big_endian (splice buf p src) p k ≡ big_endian src 0 k
  big_endian-splice zero h = refl
  big_endian-splice (suc k) h = omega (
    arith,
    big_endian-splice k (omega arith),
    byte_at-splice_inside buf p src fits k (omega arith),
    ap (λ (t : ℕ). byte_at src t) {x = 0 + k} {y = k} (omega arith),
  )

  pub byte_at-splice_outside :
      (i : ℕ) → (i < p) ⊎ (p + length src ≤ i) → byte_at (splice buf p src) i ≡ byte_at buf i
  byte_at-splice_outside i (inl h) = byte_at-splice_below buf p src fits i h
  byte_at-splice_outside i (inr h) = byte_at-splice_above buf p src fits i h

-- `write` stores the low `8 * n` bits of a number at `p`, `look` returns them, and the byte `i` is
-- as it was.
abbrev pub Restores :
    (List ℕ → ℕ → ℕ → Out (List ℕ)) → (List ℕ → ℕ → Out ℕ) → ℕ → List ℕ → ℕ → ℕ → ℕ → Type 0
Restores write look n buf p v i =
    (buf' : List ℕ) × (write buf p v ≡ ok buf')
    × (look buf' p ≡ ok (v % 2 ^ (8 * n)))
    × (length buf' ≡ length buf)
    × (byte_at buf' i ≡ byte_at buf i)

wrap8-cons : (x : ℕ) (xs : List ℕ) → IsBytes xs → IsBytes (wrap8 x ∷ xs)
wrap8-cons x xs b = IsBytes-cons (wrap8 x) xs (omega arith) b

module _ (buf : List ℕ) (p v i : ℕ) (bytes : IsBytes buf) where
  -- `write` copies `src`, and `look` reads the value of as many bytes.
  restore :
      (write : List ℕ → ℕ → ℕ → Out (List ℕ)) (look : List ℕ → ℕ → Out ℕ) (n : ℕ) (src : List ℕ)
      → p + n ≤ length buf
      → length src ≡ n
      → IsBytes src
      → (i < p) ⊎ (p + n ≤ i)
      → write buf p v ≡ memcpy buf p src
      → ((b : List ℕ) → IsBytes b → p + n ≤ length b → look b p ≡ ok (big_endian b p n))
      → big_endian src 0 n ≡ v % 2 ^ (8 * n)
      → Restores write look n buf p v i
  restore write look n src fits len src_bytes outside w l value =
      let room : p + length src ≤ length buf = rw len fits in
      (
        splice buf p src,
        w ∙ memcpy-in_range buf p src room,
        l (splice buf p src) (splice-IsBytes buf p src room bytes src_bytes)
              (rw (length-splice buf p src room) fits)
            ∙ ap ok (big_endian-splice buf p src room n (omega arith) ∙ value),
        length-splice buf p src room,
        byte_at-splice_outside buf p src room i (rw len outside),
      )

  pub pntoh-phton16 :
      p + 2 ≤ length buf → (i < p) ⊎ (p + 2 ≤ i) → Restores phton16 pntoh16 2 buf p v i
  unfolding phton16
  pntoh-phton16 fits outside =
      restore phton16 pntoh16 2 (wrap8 (v / 2 ^ 8) ∷ wrap8 v ∷ []) fits refl
        (wrap8-cons _ _ (wrap8-cons _ _ IsBytes-nil)) outside
        (ap (λ (t : ℕ). memcpy buf p (wrap8 (v / 2 ^ 8) ∷ t ∷ [])) (bit_and_mask 8 v))
        (λ b h k. pntoh16-eq b p h k) (omega arith)

  pub pntoh-phton24 :
      p + 3 ≤ length buf → (i < p) ⊎ (p + 3 ≤ i) → Restores phton24 pntoh24 3 buf p v i
  unfolding phton24
  pntoh-phton24 fits outside =
      restore phton24 pntoh24 3 (wrap8 (v / 2 ^ 16) ∷ wrap8 (v / 2 ^ 8) ∷ wrap8 v ∷ []) fits refl
        (wrap8-cons _ _ (wrap8-cons _ _ (wrap8-cons _ _ IsBytes-nil))) outside refl
        (λ b h k. pntoh24-eq b p h k) (omega arith)

  pub pntoh-phton32 :
      p + 4 ≤ length buf → (i < p) ⊎ (p + 4 ≤ i) → Restores phton32 pntoh32 4 buf p v i
  unfolding phton32
  pntoh-phton32 fits outside =
      restore phton32 pntoh32 4
        (wrap8 (v / 2 ^ 24) ∷ wrap8 (v / 2 ^ 16) ∷ wrap8 (v / 2 ^ 8) ∷ wrap8 v ∷ []) fits refl
        (wrap8-cons _ _ (wrap8-cons _ _ (wrap8-cons _ _ (wrap8-cons _ _ IsBytes-nil)))) outside refl
        (λ b h k. pntoh32-eq b p h k) (omega arith)

  pub pntoh-phton48 :
      p + 6 ≤ length buf → (i < p) ⊎ (p + 6 ≤ i) → Restores phton48 pntoh48 6 buf p v i
  unfolding phton48
  pntoh-phton48 fits outside =
      restore phton48 pntoh48 6
        (wrap8 (v / 2 ^ 40)
          ∷ wrap8 (v / 2 ^ 32)
          ∷ wrap8 (v / 2 ^ 24)
          ∷ wrap8 (v / 2 ^ 16)
          ∷ wrap8 (v / 2 ^ 8)
          ∷ wrap8 v
          ∷ [])
        fits refl
        (wrap8-cons _ _ (
          wrap8-cons _ _
            (wrap8-cons _ _ (wrap8-cons _ _ (wrap8-cons _ _ (wrap8-cons _ _ IsBytes-nil))))))
        outside refl (λ b h k. pntoh48-eq b p h k) (omega arith)

  pub pntoh-phton64 :
      p + 8 ≤ length buf → (i < p) ⊎ (p + 8 ≤ i) → Restores phton64 pntoh64 8 buf p v i
  unfolding phton64
  pntoh-phton64 fits outside =
      restore phton64 pntoh64 8
        (wrap8 (v / 2 ^ 56)
          ∷ wrap8 (v / 2 ^ 48)
          ∷ wrap8 (v / 2 ^ 40)
          ∷ wrap8 (v / 2 ^ 32)
          ∷ wrap8 (v / 2 ^ 24)
          ∷ wrap8 (v / 2 ^ 16)
          ∷ wrap8 (v / 2 ^ 8)
          ∷ wrap8 v
          ∷ [])
        fits refl
        (wrap8-cons _ _ (
          wrap8-cons _ _ (
            wrap8-cons _ _ (
              wrap8-cons _ _
                (wrap8-cons _ _ (wrap8-cons _ _ (wrap8-cons _ _ (wrap8-cons _ _ IsBytes-nil))))))))
        outside refl (λ b h k. pntoh64-eq b p h k) (omega arith)

-- At every width, 2, 3, 4, 6 and 8 bytes: writing a number in network byte order inside a buffer of
-- bytes and reading it back gives its low bits, and leaves the buffer's length and every byte
-- outside the place of 8 bytes as it was.
pub pntoh-phton :
    (buf : List ℕ) (p v i : ℕ)
    → IsBytes buf
    → p + 8 ≤ length buf
    → (i < p) ⊎ (p + 8 ≤ i)
    → Restores phton16 pntoh16 2 buf p v i
      × Restores phton24 pntoh24 3 buf p v i
      × Restores phton32 pntoh32 4 buf p v i
      × Restores phton48 pntoh48 6 buf p v i
      × Restores phton64 pntoh64 8 buf p v i
pntoh-phton buf p v i b h o = (
  pntoh-phton16 buf p v i b (omega arith) (omega arith),
  pntoh-phton24 buf p v i b (omega arith) (omega arith),
  pntoh-phton32 buf p v i b (omega arith) (omega arith),
  pntoh-phton48 buf p v i b (omega arith) (omega arith),
  pntoh-phton64 buf p v i b h o,
)
