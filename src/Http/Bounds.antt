-- ===== src/Http/Bounds.antt =====
-- nfq2/protocol.c: where `IsHttp` and `HttpFindHost` read.
use mathlib.Core.Path.{subst}
use prizma.Base.{
  fault, ◌&&◌, Bool-cases, inl, inr, no, ℕ, zero, suc, ◌+◌, ◌-◌, ◌≤◌, ◌<◌, ◌≡◌, refl, Bool, true,
  false, ◌||◌, List, [], ◌∷◌, Out, ok, ◌>>=◌, ltb, leb, ◌==◌, if◌then◌else◌, byte_at, length, arith,
  Ensures, returns, refuses, Ensures-bind, Ensures-if, Ensures-read, Ensures-weaken, read-in_range,
}
use prizma.Classify.{mem_eq}
use prizma.Classify.Bounds.{Answers, mem_eq-Answers}
use prizma.Http.{
  http_methods, find_method, http_method, is_blank, is_word, skip_while, skip_word, is_http,
  is_host_at, host_in, find_host_in, http_find_host,
}

module _ (buf : List ℕ) where
  find_method-reads :
      (d len : ℕ) (ms : List (List ℕ))
      → d + len ≤ length buf
      → Ensures (λ (x : List ℕ). Unit {0}) (find_method buf d len ms)
  unfolding find_method
  find_method-reads d len [] le = refuses
  find_method-reads d len (x ∷ xs) le =
      Ensures-if (leb (length x) len) _ _
        (λ h.
          Ensures-bind (mem_eq buf d x) _ (mem_eq-Answers buf d x (ground arith)) λ same _.
            Ensures-if same (ok x) _ (λ _. returns tt) (λ _. find_method-reads d len xs le))
        (λ _. find_method-reads d len xs le)

  skip_while-le :
      (test : ℕ → Bool) (e n : ℕ)
      → n ≤ e
      → e ≤ length buf
      → Ensures (λ m. m ≤ n) (skip_while test buf e n)
  unfolding skip_while
  skip_while-le test e zero h le = returns (omega arith)
  skip_while-le test e (suc n) h le = Ensures-read buf (e - suc n) _ (omega arith) (
      Ensures-if (test (byte_at buf (e - suc n))) _ _
        (λ _. Ensures-weaken (λ m k. omega arith) (skip_while-le test e n (omega arith) le))
        (λ _. returns (omega arith)))

  skip_word-le : (e n : ℕ) → n ≤ e → e ≤ length buf → Ensures (λ m. m ≤ n) (skip_word buf e n)
  unfolding skip_word
  skip_word-le e n h le =
      Ensures-bind (skip_while is_word buf e n) _ (skip_while-le is_word e n h le) λ m k.
        Ensures-if (m == 0) _ _ (λ _. refuses)
          λ some_left. Ensures-read buf (e - m) _ (ground arith) (
            Ensures-if (is_blank (byte_at buf (e - m))) _ _
              (λ _.
                Ensures-weaken (λ i j. omega arith) (skip_while-le is_blank e m (omega arith) le))
              (λ _. refuses))

  -- For a message that lies in a buffer, the test for an HTTP request reads nothing outside it.
  is_http-Answers : (d len : ℕ) → d + len ≤ length buf → Answers (is_http buf d len)
  unfolding is_http http_method
  is_http-Answers d len le =
      let e = d + len in
      Ensures-bind (if leb 4 len then find_method buf d len http_methods else no) _
        (Ensures-if (leb 4 len) _ _ (λ _. find_method-reads d len http_methods le) (λ _. refuses))
        λ method _.
          Ensures-bind (skip_word buf e len) _ (skip_word-le e len (omega arith) le) λ m h.
            Ensures-bind (skip_word buf e m) _ (skip_word-le e m (omega arith) le) λ n k.
              Ensures-if (ltb n 10) _ _ (λ _. returns tt)
                λ enough. Ensures-read buf (e - n) _ (ground arith) (
                  let c = byte_at buf (e - n) in
                  Ensures-if (c == 13 || c == 10) _ _ (λ _. returns tt)
                    (λ _. mem_eq-Answers buf (e - n) _ (ground arith)))

  -- `Host:` in any case behind a line end.
  abbrev pub host_bytes : ℕ → Bool
  host_bytes p =
      byte_at buf p == 10
      && (byte_at buf (p + 1) == b'H' || byte_at buf (p + 1) == b'h')
      && (byte_at buf (p + 2) == b'o' || byte_at buf (p + 2) == b'O')
      && (byte_at buf (p + 3) == b's' || byte_at buf (p + 3) == b'S')
      && (byte_at buf (p + 4) == b't' || byte_at buf (p + 4) == b'T')
      && byte_at buf (p + 5) == b':'

  -- The first place from `p` on where a Host header begins is `q`.
  pub data First : ℕ → ℕ → Type 0 where
    here : {p : ℕ} → host_bytes p ≡ true → First p p
    later : {p q : ℕ} → host_bytes p ≡ false → First (p + 1) q → First p q

  -- None of the `n` places from `p` on has one.
  pub data Nowhere : ℕ → ℕ → Type 0 where
    none_left : {p : ℕ} → Nowhere p 0
    not_here : {p n : ℕ} → host_bytes p ≡ false → Nowhere (p + 1) n → Nowhere p (suc n)

  -- What a search over `n` places from `p` on returns: the first of them with `shift` added, or a refusal.
  pub data Search (shift p n : ℕ) : Out ℕ → Type 0 where
    hit : {q : ℕ} → First p q → q < p + n → Search shift p n (ok (q + shift))
    miss : Nowhere p n → Search shift p n no

  is_host_at-eq : (p : ℕ) → p + 6 ≤ length buf → is_host_at buf p ≡ ok (host_bytes p)
  unfolding is_host_at
  is_host_at-eq p h =
      rw
        (
          read-in_range buf p (omega arith),
          read-in_range buf (p + 1) (omega arith),
          read-in_range buf (p + 2) (omega arith),
          read-in_range buf (p + 3) (omega arith),
          read-in_range buf (p + 4) (omega arith),
          read-in_range buf (p + 5) (omega arith),
        )
        refl

  host_in-turn :
      (p n : ℕ) (b : Bool)
      → host_bytes p ≡ b
      → Search 0 (p + 1) n (host_in buf (p + 1) n)
      → Search 0 p (suc n) (if b then ok p else host_in buf (p + 1) n)
  host_in-turn p n true e k =
      subst (λ (x : ℕ). Search 0 p (suc n) (ok x)) (omega arith) (hit (here e) (omega arith))
  host_in-turn p n false e k = wider (host_in buf (p + 1) n) k
    where
      wider : (r : Out ℕ) → Search 0 (p + 1) n r → Search 0 p (suc n) r
      wider (ok x) (hit f h) = hit (later e f) (omega arith)
      wider no (miss w) = miss (not_here e w)
      wider fault x = elim x [ ]

  host_in-Search : (p n : ℕ) → p + n + 5 ≤ length buf → Search 0 p n (host_in buf p n)
  unfolding host_in
  host_in-Search p zero h = miss none_left
  host_in-Search p (suc n) h =
      rw (is_host_at-eq p (omega arith))
        (host_in-turn p n (host_bytes p) refl (host_in-Search (p + 1) n (omega arith)))

  plus_one : (p n : ℕ) (r : Out ℕ) → Search 0 p n r → Search 1 p n (r >>= λ x. ok (x + 1))
  plus_one p n (ok x) (hit {q = q} f h) =
      subst (λ (y : ℕ). Search 1 p n (ok y)) {x = q + 1} (omega arith) (hit f h)
  plus_one p n no (miss w) = miss w
  plus_one p n fault x = elim x [ ]

  -- For a message that lies in a buffer, the search for the Host header returns the place behind the line
  -- end of the first one that lies whole in the message, and refuses just where there is none; it reads
  -- nothing outside the message.
  pub http_find_host-Search :
      (d bs : ℕ) → d + bs ≤ length buf → Search 1 d (bs - 5) (http_find_host buf d bs)
  unfolding http_find_host find_host_in
  http_find_host-Search d bs le = elim (Bool-cases (ltb bs 6)) [
    | inl short ↦ rw short (miss (subst (Nowhere d) {x = 0} (ground arith) none_left))
    | inr long ↦ rw long (
        subst (λ (n : ℕ). Search 1 d n (host_in buf d (bs - 6 + 1) >>= λ x. ok (x + 1)))
          {x = bs - 6 + 1} (ground arith)
          (plus_one d (bs - 6 + 1) _ (host_in-Search d (bs - 6 + 1) (ground arith))))
  ]

  First-le : (p q : ℕ) → First p q → p ≤ q
  First-le p q (here e) = omega arith
  First-le p q (later e f) = omega (arith, First-le (p + 1) q f)

  Search-within :
      (d bs : ℕ) (r : Out ℕ)
      → Search 1 d (bs - 5) r
      → Ensures (λ h. (d + 1 ≤ h) × (h + 5 ≤ d + bs)) r
  Search-within d bs (ok x) (hit {q = q} f h) =
      let le = First-le d q f in returns (omega arith, omega arith)
  Search-within d bs no (miss w) = refuses
  Search-within d bs fault x = elim x [ ]

  pub http_find_host-within :
      (d bs : ℕ)
      → d + bs ≤ length buf
      → Ensures (λ h. (d + 1 ≤ h) × (h + 5 ≤ d + bs)) (http_find_host buf d bs)
  http_find_host-within d bs le =
      Search-within d bs (http_find_host buf d bs) (http_find_host-Search d bs le)
