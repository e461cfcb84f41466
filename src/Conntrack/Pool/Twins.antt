-- ===== src/Conntrack/Pool/Twins.antt =====
-- nfq2/conntrack.c: `ConntrackPoolFeed` and `ConntrackPoolDoubleSearch` on the two directions.
use mathlib.Core.Path.{subst}
use prizma.Base.{
  ◌≡◌, ◌≢◌, ◌∙◌, ap, sym, refl, ◌⊎◌, inl, inr, Bool, true, false, not, ◌&&◌, ◌||◌, none, some,
  if◌then◌else◌, Option-cases,
}
use native.Mathlib.Decide.{ℕ_discrete}
use prizma.Positions.{Time}
use prizma.Conntrack.{Packet, Track, init_track, feed_packet}
use prizma.Conntrack.Options.{tcp_syn_segment, tcp_synack_segment}
use prizma.Conntrack.Pool.{
  Conn, Table, connswap, extract_conn, Found, Outcome, accepted, ignored, opens, is_udp, set_proto,
  search, double_search_conn, double_search, fed, feed_new, feed_conn, feed,
}

-- An accepted packet satisfies `P`, an ignored one has the reason `Q`.
pub data Yields {T : Type 0} (P : Found → T → Type 0) (Q : Type 0) : Outcome T → Type 0 where
  yields : {f : Found} {t : T} → P f t → Yields P Q (accepted f t)
  ignores : Q → Yields P Q ignored

pub Conn-discrete : Discrete Conn
Conn-discrete = hlevel ℕ_discrete

pub connswap_twice : (c : Conn) → connswap (connswap c) ≡ c
unfolding connswap
connswap_twice c = refl

-- Of the two directions of a connection the pool has at most one.
pub record NoTwins (H : Table) (t : H.T) : Type 0 where
  pub at : (c : Conn) → (c ≡ connswap c) ⊎ ((H.find t c ≡ none) ⊎ (H.find t (connswap c) ≡ none))

module _ (H : Table) where
  pub search-forward :
      (t : H.T) (c : Conn) (v : Track)
      → H.find t c ≡ some v
      → double_search_conn H t c ≡ some (record { key = c; track = v; reverse = false })
  unfolding double_search_conn search
  search-forward t c v e = rw (e, double_search_conn) refl

  pub search-back :
      (t : H.T) (c : Conn) (v : Track)
      → H.find t c ≡ none
      → H.find t (connswap c) ≡ some v
      → double_search_conn H t c ≡ some (record { key = connswap c; track = v; reverse = true })
  unfolding double_search_conn search
  search-back t c v n e = rw (n, e, double_search_conn) refl

  pub search-missing :
      (t : H.T) (c : Conn)
      → H.find t c ≡ none
      → H.find t (connswap c) ≡ none
      → double_search_conn H t c ≡ none
  unfolding double_search_conn search
  search-missing t c n e = rw (n, e, double_search_conn) refl

  set-absent :
      (t : H.T) (k d : Conn) (u v : Track)
      → H.find t k ≡ some u
      → H.find t d ≡ none
      → H.find (H.set t k v) d ≡ none
  set-absent t k d u v e n = H.find-set_other t k d v (λ q. cc) ∙ n

  set-NoTwins :
      (t : H.T) (k : Conn) (u v : Track)
      → H.find t k ≡ some u
      → NoTwins H t
      → NoTwins H (H.set t k v)
  set-NoTwins t k u v e w = record {
    at = λ c. elim (w.at c) [
      | inl q ↦ inl q
      | inr (inl q) ↦ inr (inl (set-absent t k c u v e q))
      | inr (inr q) ↦ inr (inr (set-absent t k (connswap c) u v e q))
    ];
  }

  pub add-NoTwins :
      (t : H.T) (k : Conn) (v : Track)
      → H.find t k ≡ none
      → H.find t (connswap k) ≡ none
      → NoTwins H t
      → NoTwins H (H.add t k v)
  add-NoTwins t k v n n' w = record {
    at = λ c. elim (Conn-discrete k c) [
      | yes q ↦ elim (Conn-discrete k (connswap k)) [
        | yes s ↦ inl (sym q ∙ s ∙ ap connswap q)
        | no s ↦ inr (
            inr (
              ap (λ d. H.find (H.add t k v) (connswap d)) (sym q)
              ∙ H.find-add_other t k (connswap k) v s
              ∙ n'))
      ]
      | no q ↦ elim (Conn-discrete k (connswap c)) [
        | yes s ↦ inr (
            inl (
              H.find-add_other t k c v q
              ∙ ap (H.find t) (sym (connswap_twice c) ∙ ap connswap (sym s))
              ∙ n'))
        | no s ↦ elim (w.at c) [
          | inl e ↦ inl e
          | inr (inl e) ↦ inr (inl (H.find-add_other t k c v q ∙ e))
          | inr (inr e) ↦ inr (inr (H.find-add_other t k (connswap c) v s ∙ e))
        ]
      ]
    ];
  }

  -- Whether a packet of a connection that is not there makes an entry.
  abbrev pub can_open : Bool → Packet → Bool
  can_open room p = (opens tcp_syn_segment p || opens tcp_synack_segment p || is_udp p) && room

  -- What feeding a packet of the connection `c` is to give.
  abbrev pub Tracked : Bool → Packet → H.T → Conn → Outcome H.T → Type 0
  Tracked room p t c =
      Yields (λ f t'. (double_search_conn H t' c ≡ some f) × NoTwins H t')
        ((double_search_conn H t c ≡ none) × (can_open room p ≡ false))

  module _ (room : Bool) (now : Time) (p : Packet) (t : H.T) (c : Conn) (w : NoTwins H t)
      (two : c ≢ connswap c) where
    fed-forward :
        (s : H.T) (u : Track)
        → NoTwins H s
        → H.find s c ≡ some u
        → Tracked room p t c (fed H now p s c u false)
    unfolding fed
    fed-forward s u w' e =
        let v = set_proto p (feed_packet now u false p) in
        yields (search-forward (H.set s c v) c v (H.find-set s c u v e), set-NoTwins s c u v e w')

    fed-back :
        (s : H.T) (u : Track)
        → NoTwins H s
        → H.find s c ≡ none
        → H.find s (connswap c) ≡ some u
        → Tracked room p t c (fed H now p s (connswap c) u true)
    unfolding fed
    fed-back s u w' n e =
        let v = set_proto p (feed_packet now u true p) in
        yields (
          search-back (H.set s (connswap c) v) c v (set-absent s (connswap c) c u v e n)
              (H.find-set s (connswap c) u v e),
          set-NoTwins s (connswap c) u v e w',
        )

    Tracked-if :
        (b : Bool) (x y : Outcome H.T)
        → (b ≡ true → Tracked room p t c x)
        → (b ≡ false → Tracked room p t c y)
        → Tracked room p t c (if b then x else y)
    Tracked-if true x y f g = f refl
    Tracked-if false x y f g = g refl

    opened-Tracked :
        H.find t c ≡ none
        → H.find t (connswap c) ≡ none
        → (synack : Bool)
        → let key = if synack then connswap c else c in
          Tracked room p t c (fed H now p (H.add t key init_track) key init_track synack)
    opened-Tracked n n' true =
        fed-back (H.add t (connswap c) init_track) init_track
          (add-NoTwins t (connswap c) init_track n' (ap (H.find t) (connswap_twice c) ∙ n) w)
          (H.find-add_other t (connswap c) c init_track (λ q. two (sym q)) ∙ n)
          (H.find-add t (connswap c) init_track)
    opened-Tracked n n' false =
        fed-forward (H.add t c init_track) init_track (add-NoTwins t c init_track n n' w)
          (H.find-add t c init_track)

    feed_new-Tracked :
        H.find t c ≡ none
        → H.find t (connswap c) ≡ none
        → Tracked room p t c (feed_new H room now p t c)
    unfolding feed_new
    feed_new-Tracked n n' =
        Tracked-if (can_open room p) _ _ (λ _. opened-Tracked n n' (opens tcp_synack_segment p))
          (λ o. ignores (search-missing t c n n', o))

    feed_conn-found :
        (f : Found)
        → double_search_conn H t c ≡ some f
        → feed_conn H room now p t c ≡ fed H now p t f.key f.track f.reverse
    unfolding feed_conn
    feed_conn-found f e = rw (e, feed_conn) refl

    feed_conn-missing :
        double_search_conn H t c ≡ none → feed_conn H room now p t c ≡ feed_new H room now p t c
    unfolding feed_conn
    feed_conn-missing e = rw (e, feed_conn) refl

    pub feed_conn-Tracked : Tracked room p t c (feed_conn H room now p t c)
    feed_conn-Tracked = elim (Option-cases (H.find t c)) [
      | inr (u, e) ↦
          subst (Tracked room p t c) (sym (feed_conn-found _ (search-forward t c u e)))
            (fed-forward t u w e)
      | inl n ↦ elim (Option-cases (H.find t (connswap c))) [
        | inr (u, e) ↦
            subst (Tracked room p t c) (sym (feed_conn-found _ (search-back t c u n e)))
              (fed-back t u w n e)
        | inl n' ↦
            subst (Tracked room p t c) (sym (feed_conn-missing (search-missing t c n n')))
              (feed_new-Tracked n n')
      ]
    ]

-- In a pool that has at most one direction of every connection, where a packet is of a connection whose
-- directions differ: feeding it either returns an entry with a direction, keeps the pool so, and from
-- then on the search for the packet finds that entry and that direction, or the packet is ignored, its
-- connection was not there, and it may not open one.
pub feed-search :
    (H : Table) (room : Bool) (now : Time) (t : H.T) (p : Packet) (c : Conn)
    → extract_conn false p ≡ some c
    → NoTwins H t
    → c ≢ connswap c
    → Yields
        (λ f t'. (double_search H t' p ≡ some f) × NoTwins H t')
        ((double_search H t p ≡ none) × (can_open H room p ≡ false))
        (feed H room now t p)
unfolding feed double_search
feed-search H room now t p c e w two =
    rw (e, feed, double_search) (feed_conn-Tracked H room now p t c w two)

-- In a pool that has at most one direction of every connection, where a packet is of a connection whose
-- directions differ: the search for the answer, the packet with the two ends exchanged, finds the same
-- entry in the other direction, or neither finds one.
pub search-reply :
    (H : Table) (t : H.T) (c : Conn)
    → NoTwins H t
    → c ≢ connswap c
    → double_search_conn H t (connswap c) ≡ elim (double_search_conn H t c) [
      | none ↦ none
      | some f ↦ some (record f { reverse = not f.reverse })
    ]
search-reply H t c w two = elim (Option-cases (H.find t c)) [
  | inr (u, e) ↦ elim (w.at c) [
    | inl q ↦ absurd (two q)
    | inr (inl n) ↦ cc
    | inr (inr n) ↦ rw (search-forward H t c u e) (
        search-back H t (connswap c) u n (ap (H.find t) (connswap_twice c) ∙ e)
        ∙ ap (λ k. some (record { key = k; track = u; reverse = true })) (connswap_twice c))
  ]
  | inl n ↦ elim (Option-cases (H.find t (connswap c))) [
    | inr (u, e) ↦ rw (search-back H t c u n e) (search-forward H t (connswap c) u e)
    | inl n' ↦
        rw (search-missing H t c n n')
          (search-missing H t (connswap c) n' (ap (H.find t) (connswap_twice c) ∙ n))
  ]
]
