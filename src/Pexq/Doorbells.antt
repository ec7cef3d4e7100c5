-- ===== src/Pexq/Doorbells.antt =====
-- The doorbells that nx_schedule_pexqdb rings, and the counts that it keeps.
use hp_nx_nic.Prelude.{
  ℕ, zero, suc, ◌+◌, ◌*◌, ◌%◌, ◌^◌, ◌≤◌, ◌<◌, ◌≡◌, refl, List, [], ◌∷◌, Bool, ◌||◌, length, ltb,
  leb, ◌==◌, if◌then◌else◌, set, arith, if-cases,
}
use hp_nx_nic.Pexq.{
  Msg, user, dma_sync, Dbell, Locals, Filling, filling, failure, advance, fill, last_doorbell,
  dbell_buf_qmsgs, dbell_incr_idx, dbell_max_pending, max_pexq_dbell, dbell_compl_thres,
}

-- A doorbell for messages that stand together in the ring at `base`, in a number that its field of
-- eight bits holds.
abbrev pub InRing : ℕ → Dbell → Type 0
InRing base d =
    (i : ℕ) × (d.paddr ≡ base + i * 64)
    × (0 < d.num_msgs)
    × (d.num_msgs < 256)
    × (i + d.num_msgs ≤ dbell_buf_qmsgs)

pub data AllInRing (base : ℕ) : List Dbell → Type 0 where
  no_more : AllInRing base []
  one_more :
      {d : Dbell} {ds : List Dbell} → InRing base d → AllInRing base ds → AllInRing base (d ∷ ds)

-- The sum of the numbers of messages.
abbrev pub total_msgs : List Dbell → ℕ
total_msgs [] = 0
total_msgs (d ∷ ds) = d.num_msgs + total_msgs ds

-- The loop has started with `f` free places, `p` pending ones and the index `n`.
module _ {ℓ} {M : Type ℓ} (base f p n : ℕ) where
  -- The counts agree with the messages placed, and the open doorbell's messages stand together.
  abbrev pub Counted : ℕ → Locals M → Type 0
  Counted free l =
      (i : ℕ) × (l.free ≡ free)
      × (free + (total_msgs l.dbell_log + l.num_dbell_qmsgs) ≡ f)
      × (l.pending ≡ p + (total_msgs l.dbell_log + l.num_dbell_qmsgs))
      × (l.msg_idx ≡ (n + (total_msgs l.dbell_log + l.num_dbell_qmsgs)) % dbell_buf_qmsgs)
      × (l.open_paddr ≡ base + i * 64)
      × (i + l.num_dbell_qmsgs ≡ l.msg_idx)
      × (l.num_dbell_qmsgs < 255)
      × (length l.dbell_log < max_pexq_dbell)
      × AllInRing base l.dbell_log

  pub data Fills (free : ℕ) : Filling M → Type ℓ where
    fills : {l : Locals M} → Counted free l → Fills free (filling l)
    failed : {slots : List (Msg M)} → Fills free (failure slots)

  advance-Fills :
      (free : ℕ) (l : Locals M) (slots : List (Msg M))
      → f + p ≤ 2 ^ 15
      → Counted (suc free) l
      → Fills free (advance base (record l { free = free; slots = slots }))
  unfolding advance
  advance-Fills free l slots small (i, e, s, q, m, o, c, b, g, a) =
      let k : ℕ = total_msgs l.dbell_log + l.num_dbell_qmsgs in
      let fresh : (l.pending + 1) % 2 ^ 16 ≡ p + (k + 1) = omega (arith, s, q, small) in
      let next : dbell_incr_idx l.msg_idx 1 ≡ (n + (k + 1)) % dbell_buf_qmsgs = omega (arith, m) in
      if-cases (Fills free)
        (ltb (dbell_incr_idx l.msg_idx 1) l.msg_idx || l.num_dbell_qmsgs + 1 == 255)
        (λ h.
          if-cases (Fills free) (leb dbell_max_pending ((l.pending + 1) % 2 ^ 16)) (λ x. failed)
            (λ x.
              if-cases (Fills free) (length l.dbell_log + 1 == max_pexq_dbell) (λ y. failed)
                (λ y. fills (
                  dbell_incr_idx l.msg_idx 1,
                  refl,
                  omega (arith, s),
                  omega (arith, fresh),
                  omega (arith, next),
                  refl,
                  omega arith,
                  omega arith,
                  ground arith,
                  one_more (i, o, omega arith, omega (arith, b), omega (arith, c, m)) a,
                ))))
        (λ h. fills (
          i,
          refl,
          omega (arith, s),
          omega (arith, fresh),
          omega (arith, next),
          o,
          ground arith,
          ground arith,
          g,
          a,
        ))

  pub fill-Fills :
      (free : ℕ) (ms : List M) (r : Filling M)
      → f + p ≤ 2 ^ 15
      → Fills free r
      → (left : ℕ) × Fills left (fill base free ms r)
  unfolding fill
  fill-Fills free ms (failure slots) small failed = (free, failed)
  fill-Fills free [] (filling l) small (fills c) = (free, fills c)
  fill-Fills zero (m ∷ ms) (filling l) small (fills c) = (zero, failed)
  fill-Fills (suc free) (m ∷ ms) (filling l) small (fills c) =
      let sync : Bool = free % dbell_compl_thres == 0 in
      let slots : List (Msg M) =
        set l.slots l.msg_idx (if sync then dma_sync l.msg_idx else user m) in
      fill-Fills free (if sync then m ∷ ms else ms)
        (advance base (record l { free = free; slots = slots })) small
        (advance-Fills free l slots small c)

  -- What the loop and the last doorbell leave: the doorbells and the counts.
  pub data Rings : Filling M → Type ℓ where
    rings :
        {l : Locals M}
        → l.free + total_msgs l.dbell_log ≡ f
        → l.pending ≡ p + total_msgs l.dbell_log
        → l.msg_idx ≡ (n + total_msgs l.dbell_log) % dbell_buf_qmsgs
        → length l.dbell_log ≤ max_pexq_dbell
        → AllInRing base l.dbell_log
        → Rings (filling l)
    none_rings : {slots : List (Msg M)} → Rings (failure slots)

  pub last_doorbell-Rings : {left : ℕ} (r : Filling M) → Fills left r → Rings (last_doorbell r)
  unfolding last_doorbell
  last_doorbell-Rings (failure slots) failed = none_rings
  last_doorbell-Rings (filling l) (fills (i, e, s, q, m, o, c, b, g, a)) =
      if-cases Rings (l.num_dbell_qmsgs == 0)
        (λ h.
          let zero_left : l.num_dbell_qmsgs ≡ 0 = ground arith in
          rings (omega (arith, e, s, zero_left)) (omega (arith, q, zero_left))
            (omega (arith, m, zero_left)) (omega (arith, g)) a)
        (λ h.
          let some_left : 0 < l.num_dbell_qmsgs = ground arith in
          if-cases Rings (leb dbell_max_pending l.pending) (λ x. none_rings)
            (λ x.
              rings (omega (arith, e, s)) (omega (arith, q)) (omega (arith, m)) (omega (arith, g))
                (one_more (i, o, some_left, omega (arith, b), omega (arith, c, m)) a)))
