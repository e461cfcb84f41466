-- ===== src/Ipset.antt =====
-- nfq2/ipset.c, and the sets of addresses of nfq2/pools.c. The balanced tree, a library in C, is an
-- interface here. A pointer to a file of addresses is its place in the list of all of them.
pub mod Load
pub mod Verdict
pub mod Sorted
use Prim.Native.Nat.{compare, Ordering}
use prizma.Base.{
  arith, Option-cases, Bool-cases, inl, inr, refl, ◌≡◌, ◌<◌, byte_at, ◌/◌, ◌%◌, ◌^◌, ◌-◌, ℕ, zero,
  suc, ◌+◌, Bool, true, false, not, ◌&&◌, ◌||◌, Option, none, some, List, [], ◌∷◌, ltb, leb, ◌==◌,
  if◌then◌else◌, take,
}
use prizma.Hostlist.{ModSig}

-- `struct kavl_bit_elem`: the first `bitlen` bits of `data`.
pub record BitElem : Type 0 where
  pub data' : List ℕ
  pub bitlen : ℕ

-- `memcmp` of two texts of the same length.
memcmp : List ℕ → List ℕ → Ordering
memcmp [] q = Ordering.eq
memcmp (x ∷ p) [] = Ordering.eq
memcmp (x ∷ p) (y ∷ q) = elim (compare x y) [
  | Ordering.eq ↦ memcmp p q
  | Ordering.lt ↦ Ordering.lt
  | Ordering.gt ↦ Ordering.gt
]

-- Two elements are compared in the bits that both have.
unfoldable pub kavl_bit_cmp : BitElem → BitElem → Ordering
unfolding memcmp
kavl_bit_cmp p q =
    let bitlen = if ltb q.bitlen p.bitlen then q.bitlen else p.bitlen in
    let df = bitlen % 8 in
    let bytes = bitlen / 8 in
    let c1 = byte_at p.data' bytes / 2 ^ (8 - df) in
    let c2 = byte_at q.data' bytes / 2 ^ (8 - df) in
    elim (memcmp (take bytes p.data') (take bytes q.data')) [
      | Ordering.eq ↦ if df == 0 then Ordering.eq else compare c1 c2
      | Ordering.lt ↦ Ordering.lt
      | Ordering.gt ↦ Ordering.gt
    ]

-- The macros of the tree: what is equal to an element, which the tree has at most once; and, where it has
-- none, the tree with the element.
pub record Trees : Type 1 where
  pub T : Type 0
  pub null : T
  pub is_null : T → Bool
  pub size : T → ℕ
  pub kavl_find : T → BitElem → Option BitElem
  pub kavl_insert : T → BitElem → Option BitElem × T
  pub kavl_erase : T → BitElem → T
  pub size-erase :
      (t : T) (e v : BitElem) → (kavl_insert t e).0 ≡ some v → size (kavl_erase t v) < size t

-- An address that is known is the list of its bytes.
abbrev pub Address : Type 0
Address = Option (List ℕ)

abbrev pub known : Address → Bool
known none = false
known (some a) = true

module _ (K : Trees) where
  -- The loop of `kavl_bit_add`, as often as fuel allows: an element within `e` makes room for it.
  pub bit_add_loop : ℕ → K.T → BitElem → Option K.T
  bit_add_loop zero t e = none
  bit_add_loop (suc k) t e = elim ((K.kavl_insert t e).0) [
    | none ↦ some ((K.kavl_insert t e).1)
    | some v ↦ elim (ltb e.bitlen v.bitlen) [
      | true ↦ bit_add_loop k (K.kavl_erase t v) e
      | false ↦ some t
    ]
  ]

  -- The tree where fuel is short; it never is.
  or_same : K.T → Option K.T → K.T
  or_same t none = t
  or_same t (some u) = u

  pub kavl_bit_add : K.T → BitElem → K.T
  kavl_bit_add t e = or_same t (bit_add_loop (suc (K.size t)) t e)

  -- An element is erased on each turn, so the elements of the tree are fuel enough.
  pub bit_add_loop-ends :
      (k : ℕ) (t : K.T) (e : BitElem) → K.size t < k → (u : K.T) × (bit_add_loop k t e ≡ some u)
  unfolding bit_add_loop
  bit_add_loop-ends zero t e h = absurd (omega arith)
  bit_add_loop-ends (suc k) t e h = elim (Option-cases ((K.kavl_insert t e).0)) [
    | inl n ↦ ((K.kavl_insert t e).1, rw (n, bit_add_loop) refl)
    | inr (v, n) ↦ elim (Bool-cases (ltb e.bitlen v.bitlen)) [
      | inl b ↦
          let (u, f) =
            bit_add_loop-ends k (K.kavl_erase t v) e (omega (arith, K.size-erase t e v n)) in
          (u, rw (n, b, bit_add_loop) f)
      | inr b ↦ (t, rw (n, b, bit_add_loop) refl)
    ]
  ]

  pub kavl_bit_get : K.T → List ℕ → ℕ → Bool
  kavl_bit_get t a bitlen = elim (K.kavl_find t (record { data' = a; bitlen = bitlen })) [
    | none ↦ false
    | some _ ↦ true
  ]

  pub record Ipset : Type 0 where
    pub ips4 : K.T
    pub ips6 : K.T

  abbrev pub no_ipset : Ipset
  no_ipset = record { ips4 = K.null; ips6 = K.null }

  pub ipset_empty : Ipset → Bool
  ipset_empty s = K.is_null s.ips4 && K.is_null s.ips6

  -- `ipset4Check` and `ipset6Check`, where the tree is not null.
  in_set : K.T → Address → ℕ → Bool
  in_set t none bits = false
  in_set t (some a) bits = if K.is_null t then false else kavl_bit_get t a bits

  pub search_ipset : Ipset → Address → Address → Bool
  search_ipset s ipv4 ipv6 =
      if known ipv4 && known ipv6 || not (known ipv4) && not (known ipv6)
      then false
      else in_set s.ips4 ipv4 32 || in_set s.ips6 ipv6 128

  pub record IpsetFile : Type 0 where
    pub filename : Option (List ℕ)
    pub mod_sig : ModSig
    pub ipset : Ipset

  abbrev pub ipset_at : List IpsetFile → ℕ → Ipset
  ipset_at [] i = no_ipset
  ipset_at (f ∷ fs) zero = f.ipset
  ipset_at (f ∷ fs) (suc i) = ipset_at fs i

  pub ipset_collection_is_empty : List IpsetFile → List ℕ → Bool
  ipset_collection_is_empty files [] = true
  ipset_collection_is_empty files (i ∷ is) =
      let rest = ipset_collection_is_empty files is in
      if not (ipset_empty (ipset_at files i)) then false else rest

  -- The addresses of the other side of a connection, and, where they are known, of this one.
  pub record Sides : Type 0 where
    pub ipv4 : Address
    pub ipv6 : Address
    pub ipv4r : Address
    pub ipv6r : Address

  -- One turn of either LIST_FOREACH of `IpsetCheck_`.
  pub either_in : Ipset → Sides → Bool
  either_in s e =
      search_ipset s e.ipv4 e.ipv6
      || (known e.ipv4r || known e.ipv6r) && search_ipset s e.ipv4r e.ipv6r

  pub search_ipsets : List IpsetFile → List ℕ → Sides → Bool
  search_ipsets files [] e = false
  search_ipsets files (i ∷ is) e =
      let rest = search_ipsets files is e in if either_in (ipset_at files i) e then true else rest

  -- `IpsetCheck_` after the check for a reload.
  pub ipset_check_lists : List IpsetFile → List ℕ → List ℕ → Sides → Bool
  ipset_check_lists files ips ips_exclude e =
      if search_ipsets files ips_exclude e
      then false
      else if not (ipset_collection_is_empty files ips)
      then search_ipsets files ips e
      else true
