-- ===== src/Conntrack/Pool/Removal.antt =====
-- nfq2/conntrack.c: `ConntrackPoolDrop` and `ConntrackPoolPurge`.
use prizma.Base.{
  ℕ, ◌≡◌, ◌≢◌, ◌∙◌, ap, sym, refl, inl, inr, true, false, none, some, if◌then◌else◌, leb, ◌-◌, ◌==◌,
  Option-cases,
}
use prizma.Conntrack.{Packet}
use prizma.Conntrack.Pool.{
  Conn, Table, Limits, connswap, extract_conn, Found, double_search_conn, double_search, drop_found,
  expired,
}
use prizma.Conntrack.Pool.Twins.{
  Conn-discrete, NoTwins, search-forward, search-back, search-missing,
}

module _ (H : Table) where
  del-absent : (t : H.T) (k d : Conn) → H.find t d ≡ none → H.find (H.del t k) d ≡ none
  del-absent t k d n = elim (Conn-discrete k d) [
    | yes q ↦ ap (H.find (H.del t k)) (sym q) ∙ H.find-del t k
    | no q ↦ H.find-del_other t k d q ∙ n
  ]

  del-NoTwins : (t : H.T) (k : Conn) → NoTwins H t → NoTwins H (H.del t k)
  del-NoTwins t k w = record {
    at = λ c. elim (w.at c) [
      | inl q ↦ inl q
      | inr (inl q) ↦ inr (inl (del-absent t k c q))
      | inr (inr q) ↦ inr (inr (del-absent t k (connswap c) q))
    ];
  }

  -- The pool after a drop: the answer of the search decides.
  drop_found-found :
      (t : H.T) (p : Packet) (f : Found)
      → double_search H t p ≡ some f
      → drop_found H t p ≡ (true, H.del t f.key)
  unfolding drop_found
  drop_found-found t p f e = rw (e, drop_found) refl

  drop_found-missing :
      (t : H.T) (p : Packet) → double_search H t p ≡ none → drop_found H t p ≡ (false, t)
  unfolding drop_found
  drop_found-missing t p e = rw (e, drop_found) refl

  search-extract :
      (t : H.T) (p : Packet) (c : Conn)
      → extract_conn false p ≡ some c
      → double_search H t p ≡ double_search_conn H t c
  unfolding double_search
  search-extract t p c e = rw (e, double_search) refl

-- In a pool that has at most one direction of every connection, where a packet is of a connection whose
-- directions differ: a drop leaves neither direction of it, keeps the pool so, and reports whether the
-- search for the packet found an entry.
pub drop_found-search :
    (H : Table) (t : H.T) (p : Packet) (c : Conn)
    → extract_conn false p ≡ some c
    → NoTwins H t
    → c ≢ connswap c
    → (double_search H (drop_found H t p).1 p ≡ none)
      × NoTwins H (drop_found H t p).1
      × ((drop_found H t p).0 ≡ elim (double_search H t p) [ none ↦ false | some _ ↦ true ])
drop_found-search H t p c e w two = elim (Option-cases (H.find t c)) [
  | inr (u, h) ↦
      let s = search-extract H t p c e ∙ search-forward H t c u h in
      let absent : H.find t (connswap c) ≡ none = elim (w.at c) [
        | inl q ↦ absurd (two q)
        | inr (inl n) ↦ cc
        | inr (inr n) ↦ n
      ] in
      rw (drop_found-found H t p _ s) (
        search-extract H (H.del t c) p c e
            ∙ search-missing H (H.del t c) c (H.find-del t c)
                (del-absent H t c (connswap c) absent),
        del-NoTwins H t c w,
        rw s refl,
      )
  | inl n ↦ elim (Option-cases (H.find t (connswap c))) [
    | inr (u, h) ↦
        let s = search-extract H t p c e ∙ search-back H t c u n h in
        rw (drop_found-found H t p _ s) (
          search-extract H (H.del t (connswap c)) p c e
              ∙ search-missing H (H.del t (connswap c)) c (del-absent H t (connswap c) c n)
                  (H.find-del t (connswap c)),
          del-NoTwins H t (connswap c) w,
          rw s refl,
        )
    | inl n' ↦
        let s = search-extract H t p c e ∙ search-missing H t c n n' in
        rw (drop_found-missing H t p s) (s, w, rw s refl)
  ]
]

module _ (H : Table) (now : ℕ) (l : Limits) (t : H.T) (w : NoTwins H t) where
  -- What the search of one key gives after a purge.
  abbrev pub Purged : Limits × H.T → Type 0
  Purged r =
      NoTwins H r.1
      × ((c : Conn)
          → H.find r.1 c ≡ (
              if now == 0
              then H.find t c
              else if leb l.t_purge_interval (now - l.t_last_purge)
              then elim (H.find t c) [
                | none ↦ none
                | some v ↦ if expired l now c v then none else some v
              ]
              else H.find t c))
