-- ===== src/Desync/Sessions/Kept.antt =====
-- nfq2/desync.c: what one call does to the waiting packets and to the buffer.
use mathlib.Core.Path.{subst}
use mathlib.Core.List.{append_assoc, append-nil}
use prizma.Base.{
  ℕ, ◌^◌, ◌<◌, ◌≡◌, ◌∙◌, ap, ap₂, sym, refl, Bool, true, false, not, ◌&&◌, Option, none, some, List,
  [], ◌∷◌, ◌++◌, ok, ltb, leb, ◌==◌, if◌then◌else◌, length, wrap32, arith, Bool-cases, inl, inr,
}
use prizma.Queue.{RawPacket, RawPacketQueue, rawpacket_dequeue, rawpacket_queue_empty}
use prizma.Reasm.{Reasm, clear, init, feed, is_empty, IsValid}
use prizma.Reasm.Safety.{clear-IsValid, init-IsValid, feed-IsValid}
use prizma.Conntrack.{Track}
use prizma.Desync.Sessions.{
  tcp_proto, Result, send_loop, rawsend_queue, send_delayed, reasm_start, reasm_failed, reasm_feed,
  reasm_client_feed, reasm_client_stop, reasm_client_start,
}

-- `malloc` gives what it is asked for or nothing.
abbrev pub IsAlloc : Option (List ℕ) → ℕ → Type 0
IsAlloc none sz = Unit
IsAlloc (some m) sz = length m ≡ sz

empty-nil :
    (l : List RawPacket) (max : ℕ)
    → rawpacket_queue_empty (record { q = l; max_packets = max }) ≡ true
    → l ≡ []
unfolding rawpacket_queue_empty
empty-nil [] max e = refl
empty-nil (x ∷ xs) max e = cc

module _ (rawsend_rp : RawPacket → Bool) where
  send_loop-all :
      (l sent : List RawPacket) (b : Bool) (max : ℕ)
      → let f =
          send_loop rawsend_rp l
            (record { result = b; queue = record { q = l; max_packets = max }; sent = sent }) in
        (f.sent ≡ sent ++ l) × (f.queue.q ≡ [])
  unfolding send_loop rawpacket_dequeue
  send_loop-all [] sent b max = (sym (append-nil sent), refl)
  send_loop-all (x ∷ xs) sent b max =
      let r = send_loop-all xs (sent ++ (x ∷ [])) (b && rawsend_rp x) max in
      (r.0 ∙ append_assoc sent (x ∷ []) xs, r.1)

  send_delayed-all :
      (t : Track)
      → let r = send_delayed rawsend_rp t in
        (r.sent ≡ t.delayed.q)
        × (r.track.delayed.q ≡ [])
        × (r.track.reasm_client ≡ t.reasm_client)
        × (r.track.pos ≡ t.pos)
  unfolding send_delayed rawsend_queue
  send_delayed-all t = elim (Bool-cases (rawpacket_queue_empty t.delayed)) [
    | inl e ↦
        let none_there : t.delayed.q ≡ [] = empty-nil t.delayed.q t.delayed.max_packets e in
        rw e (sym none_there, none_there, refl, refl)
    | inr e ↦
        let all = send_loop-all t.delayed.q [] true t.delayed.max_packets in
        rw e (all.0, all.1, refl, refl)
  ]

  -- What a call did: the waiting packets still wait, or were sent; the buffer is well formed, and the
  -- positions are as they were.
  pub record Kept (t : Track) (r : Result) : Type 0 where
    pub order : r.sent ++ r.track.delayed.q ≡ t.delayed.q
    pub buffer : IsValid r.track.reasm_client
    pub same_pos : r.track.pos ≡ t.pos

  send_delayed-Kept :
      (t u : Track)
      → IsValid u.reasm_client
      → u.delayed ≡ t.delayed
      → u.pos ≡ t.pos
      → Kept t (send_delayed rawsend_rp u)
  send_delayed-Kept t u v q p =
      let (all, left, same, pos) = send_delayed-all u in
      record {
        order = ap₂ ◌++◌ all left ∙ append-nil u.delayed.q ∙ ap (λ (x : RawPacketQueue). x.q) q;
        buffer = subst IsValid (sym same) v;
        same_pos = pos ∙ p;
      }

  fed-Kept :
      (t : Track) (seq : ℕ) (payload : List ℕ) (b : Bool) (reasm : Reasm)
      → is_empty t.reasm_client ≡ false
      → feed t.reasm_client seq payload ≡ ok (b, reasm)
      → IsValid reasm
      → (r : Result) × (reasm_feed rawsend_rp t seq payload ≡ ok r) × Kept t r
  unfolding reasm_feed reasm_failed
  fed-Kept t seq payload true reasm e f v = (
    record { result = true; track = record t { reasm_client = reasm }; sent = [] },
    rw (e, f) refl,
    record { order = refl; buffer = v; same_pos = refl },
  )
  fed-Kept t seq payload false reasm e f v =
      let u : Track = record t { reasm_client = clear reasm } in
      let s = send_delayed rawsend_rp u in
      let k = send_delayed-Kept t u (clear-IsValid reasm v) refl refl in
      (
        record { result = false; track = s.track; sent = s.sent },
        rw (e, f) refl,
        record { order = k.order; buffer = k.buffer; same_pos = k.same_pos },
      )

  pub reasm_client_stop-sent : (t : Track) → (reasm_client_stop rawsend_rp t).sent ≡ t.delayed.q
  unfolding reasm_client_stop
  reasm_client_stop-sent t = elim (Bool-cases (is_empty t.reasm_client)) [
    | inl e ↦ rw e ((send_delayed-all t).0)
    | inr e ↦ rw e (
        (send_delayed-all
          (record t { reasm_client = clear t.reasm_client; reasm_client_payload = 1 })).0)
  ]

  reasm_feed-Kept :
      (t : Track) (seq : ℕ) (payload : List ℕ)
      → IsValid t.reasm_client
      → seq < 2 ^ 32
      → length payload < 2 ^ 63
      → (r : Result) × (reasm_feed rawsend_rp t seq payload ≡ ok r) × Kept t r
  unfolding reasm_feed
  reasm_feed-Kept t seq payload v w h = elim (Bool-cases (is_empty t.reasm_client)) [
    | inl e ↦ (
      record { result = false; track = t; sent = [] },
      rw e refl,
      record { order = refl; buffer = v; same_pos = refl },
    )
    | inr e ↦
        let (b, reasm, f, valid, _) = feed-IsValid t.reasm_client seq payload v w h in
        fed-Kept t seq payload b reasm e f valid
  ]

  pub reasm_client_stop-Kept :
      (t : Track) → IsValid t.reasm_client → Kept t (reasm_client_stop rawsend_rp t)
  unfolding reasm_client_stop
  reasm_client_stop-Kept t v = elim (Bool-cases (is_empty t.reasm_client)) [
    | inl e ↦ rw e (send_delayed-Kept t t v refl refl)
    | inr e ↦
        let u : Track = record t {
          reasm_client = clear t.reasm_client;
          reasm_client_payload = 1;
        } in
        rw e (send_delayed-Kept t u (clear-IsValid t.reasm_client v) refl refl)
  ]

  pub reasm_client_feed-Kept :
      (t : Track) (proto : ℕ) (payload : List ℕ)
      → IsValid t.reasm_client
      → t.pos.client.seq_last < 2 ^ 32
      → length payload < 2 ^ 63
      → (r : Result) × (reasm_client_feed rawsend_rp t proto payload ≡ ok r) × Kept t r
  unfolding reasm_client_feed
  reasm_client_feed-Kept t proto payload v w h =
      reasm_feed-Kept t
        (if proto == tcp_proto then t.pos.client.seq_last else wrap32 t.reasm_client.size_present)
        payload v (ground arith) h

reasm_start-IsValid :
    (alloc : Option (List ℕ)) (reasm : Reasm) (seq sz sz_max : ℕ) (payload : List ℕ)
    → IsAlloc alloc sz
    → IsValid reasm
    → seq < 2 ^ 32
    → sz < 2 ^ 63
    → length payload < 2 ^ 63
    → (p : Bool × Reasm) × (reasm_start alloc reasm seq sz sz_max payload ≡ ok p) × IsValid p.1
unfolding reasm_start init clear
reasm_start-IsValid alloc reasm seq sz sz_max payload a v w h k =
    elim (Bool-cases (leb sz sz_max)) [
      | inr e ↦ ((false, clear reasm), rw e refl, clear-IsValid reasm v)
      | inl e ↦ started alloc a e
    ]
  where
    started :
        (alloc : Option (List ℕ))
        → IsAlloc alloc sz
        → leb sz sz_max ≡ true
        → (p : Bool × Reasm) × (reasm_start alloc reasm seq sz sz_max payload ≡ ok p) × IsValid p.1
    started none a e = ((false, clear reasm), rw e refl, clear-IsValid reasm v)
    started (some m) a e =
        let valid = init-IsValid m (clear reasm) sz seq a h w in
        let (b, r, f, fed, _) =
          feed-IsValid (init (some m) (clear reasm) sz seq).1 seq payload valid w k in
        ((true, r), rw (e, f) refl, fed)

pub reasm_client_start-IsValid :
    (alloc : Option (List ℕ)) (t : Track) (proto pl sz sz_max : ℕ) (payload : List ℕ)
    → IsAlloc alloc sz
    → IsValid t.reasm_client
    → t.pos.client.seq_last < 2 ^ 32
    → sz < 2 ^ 63
    → length payload < 2 ^ 63
    → (r : Bool × Track) × (reasm_client_start alloc t proto pl sz sz_max payload ≡ ok r)
      × IsValid r.1.reasm_client
      × (r.1.delayed ≡ t.delayed)
      × (r.1.pos ≡ t.pos)
unfolding reasm_client_start
reasm_client_start-IsValid alloc t proto pl sz sz_max payload a v w h k =
    elim (Bool-cases (
      proto == tcp_proto && not (t.pos.server.pcounter == 0) && ltb t.pos.server.winsize_calc sz)) [
        | inl e ↦ ((false, t), rw e refl, v, refl, refl)
        | inr e ↦
            let seq = if proto == tcp_proto then t.pos.client.seq_last else 0 in
            let (p, f, valid) =
              reasm_start-IsValid alloc t.reasm_client seq sz sz_max payload a v (ground arith) h
                k in
            (
              (p.0, record t { reasm_client_payload = pl; reasm_client = p.1 }),
              rw (e, f) refl,
              valid,
              refl,
              refl,
            )
      ]
