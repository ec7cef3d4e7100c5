-- ===== src/Pexq/Counts.antt =====
-- The invariant of the doorbell queue, that nx_schedule_pexqdb keeps.
use hp_nx_nic.Prelude.{
  ℕ, ◌+◌, ◌-◌, ◌%◌, ◌^◌, ◌≤◌, ◌<◌, ◌≡◌, refl, ◌∙◌, List, false, ◌||◌, Option, none, some, length,
  ltb, ◌==◌, if◌then◌else◌, arith, if-cases,
}
use hp_nx_nic.Pexq.{
  is_neg16, Pexq, Dbell, Filling, filling, failure, fill, last_doorbell, locals_of, free_u32,
  committed, update_pending_doorbell, schedule_pexqdb, dbell_buf_qmsgs, max_pexq_dbell,
}
use hp_nx_nic.Pexq.Places.{Takes, takes, loop-Takes}
use hp_nx_nic.Pexq.Doorbells.{
  AllInRing, no_more, total_msgs, Fills, fills, fill-Fills, Rings, rings, none_rings,
  last_doorbell-Rings,
}

module _ {ℓ} {M : Type ℓ} where
  -- Each place of the ring is free or pending, and the pending ones lie between the two indices.
  abbrev pub IsValid : Pexq M → Type 0
  IsValid q =
      (q.qbuf_pending_compl_idx < dbell_buf_qmsgs)
      × (q.qbuf_new_idx ≡ (q.qbuf_pending_compl_idx + q.qbuf_pending_cnt) % dbell_buf_qmsgs)
      × (q.qbuf_free_cnt + q.qbuf_pending_cnt ≡ dbell_buf_qmsgs)

  -- The card's index is that of a pending place, or the one behind.
  abbrev pub IsPending : Pexq M → ℕ → ℕ → Type 0
  IsPending q compl_in j =
      (j ≤ q.qbuf_pending_cnt) × (compl_in ≡ (q.qbuf_pending_compl_idx + j) % dbell_buf_qmsgs)

  -- The completion of `j` messages, counted as `cnt`.
  completed-IsValid :
      (in16 j cnt : ℕ) (q : Pexq M)
      → IsValid q
      → IsPending q in16 j
      → cnt ≡ j
      → IsValid (record q {
        qbuf_pending_compl_idx = in16;
        qbuf_pending_cnt = (q.qbuf_pending_cnt + 2 ^ 16 - cnt) % 2 ^ 16;
        qbuf_free_cnt = (q.qbuf_free_cnt + cnt) % 2 ^ 16;
      })
  completed-IsValid in16 j cnt q (c, n, s) (h, e) same =
      (omega (arith, e), omega (arith, c, n, s, h, e, same), omega (arith, s, h, same))

  count_lem :
      (in16 j : ℕ) (q : Pexq M)
      → IsValid q
      → IsPending q in16 j
      → (if is_neg16 in16 then false else in16 == q.qbuf_pending_compl_idx) ≡ false
      → (if is_neg16 in16 || ltb in16 q.qbuf_pending_compl_idx
          then ((in16 + 2 ^ 16 - q.qbuf_pending_compl_idx) % 2 ^ 16 + dbell_buf_qmsgs) % 2 ^ 16
          else (in16 + 2 ^ 16 - q.qbuf_pending_compl_idx) % 2 ^ 16)
        ≡ j
  count_lem in16 j q (c, n, s) (h, e) x =
      let small : in16 < 1024 = omega (arith, e) in
      if-cases (λ k. k ≡ j) (is_neg16 in16 || ltb in16 q.qbuf_pending_compl_idx)
        (λ y.
          let less : in16 < q.qbuf_pending_compl_idx = ground arith in
          omega (arith, c, s, h, e, less))
        (λ y.
          let more : q.qbuf_pending_compl_idx < in16 = ground arith in
          omega (arith, c, s, h, e, more))

  update_pending_doorbell-IsValid :
      (compl_in j : ℕ) (q : Pexq M)
      → IsValid q
      → IsPending q compl_in j
      → IsValid (update_pending_doorbell compl_in q)
  unfolding update_pending_doorbell
  update_pending_doorbell-IsValid compl_in j q v (h, e) =
      let in16 : ℕ = compl_in % 2 ^ 16 in
      let low : in16 ≡ compl_in = omega (arith, e) in
      let w : IsPending q in16 j = (h, low ∙ e) in
      if-cases IsValid (if is_neg16 in16 then false else in16 == q.qbuf_pending_compl_idx) (λ x. v)
        (λ x.
          completed-IsValid in16 j
            (if is_neg16 in16 || ltb in16 q.qbuf_pending_compl_idx
              then ((in16 + 2 ^ 16 - q.qbuf_pending_compl_idx) % 2 ^ 16 + dbell_buf_qmsgs) % 2 ^ 16
              else (in16 + 2 ^ 16 - q.qbuf_pending_compl_idx) % 2 ^ 16)
            q v w (count_lem in16 j q v w x))

  -- The new doorbells: where their messages stand, that there are four at most, for `k` messages at least, and that the new
  -- index and the pending count grow by their messages.
  abbrev pub RingsFor : Pexq M → ℕ → Pexq M × Option (List Dbell) → Type 0
  RingsFor q k (r, none) =
      (r.qbuf_new_idx ≡ q.qbuf_new_idx) × (r.qbuf_pending_cnt ≡ q.qbuf_pending_cnt)
  RingsFor q k (r, some log) =
      AllInRing q.qbuf_paddr log
      × (length log ≤ max_pexq_dbell)
      × (k ≤ total_msgs log)
      × (r.qbuf_new_idx ≡ (q.qbuf_new_idx + total_msgs log) % dbell_buf_qmsgs)
      × (r.qbuf_pending_cnt ≡ q.qbuf_pending_cnt + total_msgs log)

  loop-Rings :
      (q : Pexq M) (ms : List M)
      → IsValid q
      → Rings q.qbuf_paddr
          (free_u32 q)
          q.qbuf_pending_cnt
          q.qbuf_new_idx
          (last_doorbell (fill q.qbuf_paddr (free_u32 q) ms (filling (locals_of q))))
  loop-Rings q ms (c, n, s) =
      let whole : free_u32 q ≡ q.qbuf_free_cnt = ground arith in
      let fit : free_u32 q + q.qbuf_pending_cnt ≤ 2 ^ 15 = omega (arith, whole, s) in
      let run : (left : ℕ) × Fills q.qbuf_paddr (free_u32 q) q.qbuf_pending_cnt q.qbuf_new_idx left
            (fill q.qbuf_paddr (free_u32 q) ms (filling (locals_of q))) =
        fill-Fills q.qbuf_paddr (free_u32 q) q.qbuf_pending_cnt q.qbuf_new_idx (free_u32 q) ms
          (filling (locals_of q)) fit
          (fills (
            q.qbuf_new_idx,
            refl,
            omega arith,
            omega arith,
            omega (arith, n),
            refl,
            omega arith,
            omega arith,
            omega arith,
            no_more,
          )) in
      last_doorbell-Rings q.qbuf_paddr (free_u32 q) q.qbuf_pending_cnt q.qbuf_new_idx
        (fill q.qbuf_paddr (free_u32 q) ms (filling (locals_of q))) run.1

  committed-RingsFor :
      (q : Pexq M) (k : ℕ) (r : Filling M)
      → IsValid q
      → Rings q.qbuf_paddr (free_u32 q) q.qbuf_pending_cnt q.qbuf_new_idx r
      → Takes q.qbuf_paddr (free_u32 q) k r
      → IsValid (committed q r).0 × RingsFor q k (committed q r)
  unfolding committed
  committed-RingsFor q k (failure slots) v none_rings t = (v, (refl, refl))
  committed-RingsFor q k (filling l) (c, n, s) (rings e g m h a) (takes t) =
      let whole : free_u32 q ≡ q.qbuf_free_cnt = ground arith in
      (
        (c, omega (arith, m, n, g), omega (arith, e, g, s, whole)),
        (a, h, omega (arith, e, t), m, g),
      )

  -- Sending messages keeps the queue valid, for a card whose completion index is that of a pending
  -- place or the one behind: each place is free or pending, and the pending ones lie between the
  -- completion index and the index of the next message, also where the call fails.
  pub schedule_pexqdb-IsValid :
      (compl_in j : ℕ) (q : Pexq M) (ms : List M)
      → IsValid q
      → IsPending q compl_in j
      → IsValid (schedule_pexqdb compl_in q ms).0
  unfolding schedule_pexqdb
  schedule_pexqdb-IsValid compl_in j q ms v h =
      let p : Pexq M = update_pending_doorbell compl_in q in
      let w : IsValid p = update_pending_doorbell-IsValid compl_in j q v h in
      (committed-RingsFor p (length ms)
        (last_doorbell (fill p.qbuf_paddr (free_u32 p) ms (filling (locals_of p)))) w
        (loop-Rings p ms w) (loop-Takes p.qbuf_paddr (free_u32 p) ms (locals_of p) refl)).0

  -- A call that succeeds rings at most four doorbells, each for 1 to 255 messages that stand
  -- together in the ring and do not pass its end; they are at least as many as the caller's, and the
  -- index of the next message and the pending count grow by exactly their number; a call that fails
  -- leaves both as they are. Both are counted from the queue as pexq_update_pending_doorbell leaves
  -- it, for a card whose completion index is that of a pending place or the one behind.
  pub schedule_pexqdb-RingsFor :
      (compl_in j : ℕ) (q : Pexq M) (ms : List M)
      → IsValid q
      → IsPending q compl_in j
      → RingsFor (update_pending_doorbell compl_in q) (length ms) (schedule_pexqdb compl_in q ms)
  unfolding schedule_pexqdb
  schedule_pexqdb-RingsFor compl_in j q ms v h =
      let p : Pexq M = update_pending_doorbell compl_in q in
      let w : IsValid p = update_pending_doorbell-IsValid compl_in j q v h in
      (committed-RingsFor p (length ms)
        (last_doorbell (fill p.qbuf_paddr (free_u32 p) ms (filling (locals_of p)))) w
        (loop-Rings p ms w) (loop-Takes p.qbuf_paddr (free_u32 p) ms (locals_of p) refl)).1
