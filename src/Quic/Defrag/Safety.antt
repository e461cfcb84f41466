-- ===== src/Quic/Defrag/Safety.antt =====
-- nfq2/protocol.c: where `QUICDefragCrypto` reads and writes.
use Prim.Native.Nat.{bit_or}
use prizma.Base.{
  ℕ, zero, suc, ◌+◌, ◌-◌, ◌^◌, ◌/◌, ◌≤◌, ◌<◌, ◌≡◌, ◌∙◌, refl, true, false, not, List, [], ◌∷◌, ◌++◌,
  ok, ◌>>=◌, ◌>>◌, guard, ltb, leb, ◌==◌, if◌then◌else◌, byte_at, slice, length-slice, memcpy,
  memcpy-in_range, length-splice, wrap64, wrap8, length, replicate, length-replicate, arith,
  Ensures, returns, Ensures-bind, Ensures-if, Ensures-read, Ensures-guard, Ensures-weaken,
}
use prizma.Bytes.{phton64}
use prizma.Bytes.Value.{IsBytes}
use prizma.Quic.{tvb_get_size}
use prizma.Quic.Integers.{rfc_varint, rfc_varint-lt, Ensures-varint, size-bounds}
use prizma.Quic.Defrag.{
  Range, State, max_defrag_pieces, has_range, store_piece, crypto_frame, frames, Defragged, finish,
  quic_defrag_crypto,
}

-- The state in an output buffer of `n` bytes.
pub record Fits (n : ℕ) (s : State) : Type 0 where
  pub size : length s.defrag ≡ n
  pub header : 10 ≤ n
  pub most : 10 + s.szmax ≤ n
  pub filled : 10 + s.zeropos ≤ n

memcpy-Ensures :
    (dst : List ℕ) (off : ℕ) (src : List ℕ)
    → off + length src ≤ length dst
    → Ensures (λ m. length m ≡ length dst) (memcpy dst off src)
memcpy-Ensures dst off src h =
    rw (memcpy-in_range dst off src h) (returns (length-splice dst off src h))

store_piece-Fits :
    (n : ℕ) (s : State) (offset : ℕ) (piece : List ℕ)
    → Fits n s
    → 10 + offset + length piece ≤ n
    → Ensures (Fits n) (store_piece s offset piece)
unfolding store_piece
store_piece-Fits n s offset piece f h =
    let gap = length-replicate {A = ℕ} (offset - s.zeropos) 0 in
    let size = f.size in
    let filled = f.filled in
    let most = f.most in
    Ensures-bind
      (if ltb s.zeropos offset
        then memcpy s.defrag (10 + s.zeropos) (replicate (offset - s.zeropos) 0)
        else ok s.defrag)
      _
      (Ensures-if {P = λ m. length m ≡ n} (ltb s.zeropos offset) _ (ok s.defrag)
        (λ b.
          Ensures-weaken (λ m e. e ∙ size)
            (memcpy-Ensures s.defrag (10 + s.zeropos) (replicate (offset - s.zeropos) 0)
              (ground (arith, gap))))
        (λ b. returns size))
      λ zeroed e.
        Ensures-bind (memcpy zeroed (10 + offset) piece) _
          (memcpy-Ensures zeroed (10 + offset) piece (omega arith))
          λ defrag e'. returns (stored defrag (e' ∙ e))
  where
    stored :
        (defrag : List ℕ)
        → length defrag ≡ n
        → Fits n (record s {
          zeropos =
              if ltb s.zeropos (offset + length piece) then offset + length piece else s.zeropos;
          found = true;
          szmax = if ltb s.szmax (offset + length piece) then offset + length piece else s.szmax;
          defrag = defrag;
          ranges = s.ranges ++ (record { offset = offset; len = length piece } ∷ []);
        })
    stored defrag e = record {
      size = e;
      header = f.header;
      most = (let m = f.most in ground arith);
      filled = (let m = f.filled in ground arith);
    }

module _ (buf : List ℕ) (d len n : ℕ) (bytes : IsBytes buf) (le : d + len ≤ length buf)
    (object : len < 2 ^ 63) where
  -- The state after a frame that began before `pos`.
  record Turned (pos : ℕ) (s : State) : Type 0 where
    fits : Fits n s
    later : pos ≤ s.pos
    within : s.pos ≤ len

  size-one : (p : ℕ) → 1 ≤ tvb_get_size (byte_at buf p)
  size-one p = (size-bounds (byte_at buf p) (bytes.at p)).0

  crypto_frame-Turned :
      (s : State) (pos : ℕ) → Fits n s → Ensures (Turned pos) (crypto_frame buf d len s pos)
  unfolding crypto_frame
  crypto_frame-Turned s pos f = Ensures-guard (ltb pos len) _ λ g.
      Ensures-guard (not (leb max_defrag_pieces (length s.ranges))) _ λ _.
        Ensures-read buf (d + pos) _ (ground arith) (
          let a = tvb_get_size (byte_at buf (d + pos)) in
          Ensures-guard (ltb (pos + a) len) _ λ g1.
            Ensures-varint buf (d + pos) bytes _ (ground arith) (ground arith) (
              let offset = (rfc_varint buf (d + pos) a).value in
              let pos2 = pos + a in
              Ensures-read buf (d + pos2) _ (ground arith) (
                let c = tvb_get_size (byte_at buf (d + pos2)) in
                Ensures-guard (leb (pos2 + c) len) _ λ g2.
                  Ensures-varint buf (d + pos2) bytes _ (ground arith) (ground arith) (
                    let sz = (rfc_varint buf (d + pos2) c).value in
                    let small = rfc_varint-lt buf (d + pos) bytes in
                    let small2 = rfc_varint-lt buf (d + pos2) bytes in
                    let pos3 = pos2 + c in
                    Ensures-guard (leb (wrap64 (pos3 + sz)) len) _ λ g3.
                      Ensures-guard (leb (wrap64 (offset + sz)) (length s.defrag - 10)) _ λ g4.
                        frame-end s pos pos3 offset sz f (ground arith) (ground arith)
                          (fits-data s offset sz f small small2 g4)))))
    where
      fits-data :
          (s : State) (offset sz : ℕ)
          → Fits n s
          → offset < 2 ^ 62
          → sz < 2 ^ 62
          → leb (wrap64 (offset + sz)) (length s.defrag - 10) ≡ true
          → 10 + offset + sz ≤ n
      fits-data s offset sz f a b g = let e = f.size in let h = f.header in ground arith

      frame-end :
          (s : State) (pos pos3 offset sz : ℕ)
          → Fits n s
          → pos ≤ pos3
          → pos3 + sz ≤ len
          → 10 + offset + sz ≤ n
          → Ensures (Turned pos) (
              (if has_range s.ranges offset sz
                then ok s
                else store_piece s offset (slice (d + pos3) sz buf))
              >>= λ s'. ok (record s' { pos = pos3 + sz }))
      frame-end s pos pos3 offset sz f h w room =
          let whole = length-slice (d + pos3) sz buf (omega arith) in
          Ensures-bind
            (if has_range s.ranges offset sz
              then ok s
              else store_piece s offset (slice (d + pos3) sz buf))
            _
            (Ensures-if {P = Fits n} (has_range s.ranges offset sz) (ok s) _ (λ _. returns f)
              (λ _. store_piece-Fits n s offset (slice (d + pos3) sz buf) f (omega (arith, whole))))
            λ s' f'. returns (turned s' f' pos pos3 sz h w)
        where
          turned :
              (s' : State)
              → Fits n s'
              → (pos pos3 sz : ℕ) → pos ≤ pos3
              → pos3 + sz ≤ len
              → Turned pos (record s' { pos = pos3 + sz })
          turned s' f' pos pos3 sz h w = record {
            fits = record {
              size = f'.size;
              header = f'.header;
              most = f'.most;
              filled = f'.filled;
            };
            later = omega arith;
            within = w;
          }

  skip-Turned :
      (s : State) → Fits n s → s.pos < len → Turned (s.pos + 1) (record s { pos = s.pos + 1 })
  skip-Turned s f h = record {
    fits = record { size = f.size; header = f.header; most = f.most; filled = f.filled };
    later = omega arith;
    within = omega arith;
  }

  frames-Fits :
      (fuel : ℕ) (s : State)
      → Fits n s
      → s.pos ≤ len
      → len - s.pos < fuel
      → Ensures (Fits n) (frames fuel buf d len s)
  unfolding frames
  frames-Fits zero s f w lt = absurd (omega arith)
  frames-Fits (suc fuel) s f w lt =
      Ensures-if (ltb s.pos len) _ (ok s)
        (λ g. Ensures-read buf (d + s.pos) _ (ground arith) (
          let ft = byte_at buf (d + s.pos) in
          Ensures-bind
            (if leb ft 1
              then ok (record s { pos = s.pos + 1 })
              else (guard (ft == 6) >> crypto_frame buf d len s (s.pos + 1)))
            _
            (Ensures-if {P = Turned (s.pos + 1)} (leb ft 1) _ _
              (λ _. returns (skip-Turned s f (ground arith)))
              (λ _. Ensures-guard (ft == 6) _ λ _. crypto_frame-Turned s (s.pos + 1) f))
            λ s' t.
              let later = t.later in
              let within = t.within in frames-Fits fuel s' t.fits within (ground arith)))
        (λ _. returns f)

phton64-Ensures :
    (m : List ℕ) (p v : ℕ) → p + 8 ≤ length m → Ensures (λ r. length r ≡ length m) (phton64 m p v)
unfolding phton64
phton64-Ensures m p v h =
    memcpy-Ensures m p
      (wrap8 (v / 2 ^ 56)
        ∷ wrap8 (v / 2 ^ 48)
        ∷ wrap8 (v / 2 ^ 40)
        ∷ wrap8 (v / 2 ^ 32)
        ∷ wrap8 (v / 2 ^ 24)
        ∷ wrap8 (v / 2 ^ 16)
        ∷ wrap8 (v / 2 ^ 8)
        ∷ wrap8 v
        ∷ [])
      (omega arith)

-- The output has its size still, and the length that is reported lies inside.
abbrev pub Sized : ℕ → Defragged → Type 0
Sized n r = (length r.defrag ≡ n) × (10 ≤ r.defrag_len) × (r.defrag_len ≤ n)

finish-Sized :
    (qsort : List Range → List Range) (n : ℕ) (s : State)
    → Fits n s
    → Ensures (Sized n) (finish qsort s)
unfolding finish
finish-Sized qsort n s f =
    let size = f.size in
    let header = f.header in
    let most = f.most in
    Ensures-guard s.found _ λ _.
      Ensures-bind (memcpy s.defrag 0 (6 ∷ 0 ∷ [])) _
        (memcpy-Ensures s.defrag 0 (6 ∷ 0 ∷ []) (omega arith))
        λ m e.
          Ensures-bind (phton64 m 2 s.szmax) _ (phton64-Ensures m 2 s.szmax (omega arith)) λ m2 e2.
            Ensures-read m2 2 _ (omega arith) (
              Ensures-bind (memcpy m2 2 (bit_or (byte_at m2 2) 0xc0 ∷ [])) _
                (memcpy-Ensures m2 2 (bit_or (byte_at m2 2) 0xc0 ∷ []) (omega arith))
                λ m3 e3. returns (omega arith, omega arith, omega arith))

-- The state before the loop.
abbrev start : List ℕ → State
start m = record { pos = 0; szmax = 0; zeropos = 0; found = false; ranges = []; defrag = m }

-- For every decrypted packet of fewer than 2 ^ 63 bytes that lies in a buffer of bytes, and whatever
-- order the sort of the library gives, putting its frames together ends, reads nothing outside the
-- packet, writes nothing outside the output buffer, and reports a length that lies inside that buffer.
pub quic_defrag_crypto-Sized :
    (qsort : List Range → List Range) (buf : List ℕ) (d len : ℕ) (defrag : List ℕ)
    → IsBytes buf
    → d + len ≤ length buf
    → len < 2 ^ 63
    → Ensures (Sized (length defrag)) (quic_defrag_crypto qsort buf d len defrag)
unfolding quic_defrag_crypto
quic_defrag_crypto-Sized qsort buf d len defrag bytes le object =
    Ensures-guard (not (ltb (length defrag) 10)) _ λ g.
      Ensures-bind (frames (len + 1) buf d len (start defrag)) _
        (frames-Fits buf d len (length defrag) bytes le object (len + 1) (start defrag)
          (record {
            size = refl;
            header = ground arith;
            most = ground arith;
            filled = ground arith;
          })
          (omega arith) (omega arith))
        λ s f. finish-Sized qsort (length defrag) s f
