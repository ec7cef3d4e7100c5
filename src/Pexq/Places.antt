-- ===== src/Pexq/Places.antt =====
-- The loop of nx_schedule_pexqdb takes a place for each of the caller's messages.
use hp_nx_nic.Prelude.{
  true, false, ℕ, zero, suc, ◌+◌, ◌%◌, ◌^◌, ◌≤◌, ◌≡◌, refl, List, [], ◌∷◌, Bool, ◌||◌, length, ltb,
  leb, ◌==◌, if◌then◌else◌, set, arith, if-cases,
}
use hp_nx_nic.Pexq.{
  Msg, user, dma_sync, Locals, Filling, filling, failure, advance, fill, last_doorbell,
  dbell_incr_idx, dbell_max_pending, max_pexq_dbell, dbell_compl_thres,
}

module _ {ℓ} {M : Type ℓ} (base : ℕ) where
  data Leaves (free : ℕ) : Filling M → Type ℓ where
    leaves : {l : Locals M} → l.free ≡ free → Leaves free (filling l)
    gone : {slots : List (Msg M)} → Leaves free (failure slots)

  advance-Leaves : (free : ℕ) (l : Locals M) → l.free ≡ free → Leaves free (advance base l)
  unfolding advance
  advance-Leaves free l e =
      if-cases (Leaves free)
        (ltb (dbell_incr_idx l.msg_idx 1) l.msg_idx || l.num_dbell_qmsgs + 1 == 255)
        (λ h.
          if-cases (Leaves free) (leb dbell_max_pending ((l.pending + 1) % 2 ^ 16)) (λ x. gone)
            (λ x.
              if-cases (Leaves free) (length l.dbell_log + 1 == max_pexq_dbell) (λ y. gone)
                (λ y. leaves e)))
        (λ h. leaves e)

  -- At least `k` of the free places are taken.
  pub data Takes (free k : ℕ) : Filling M → Type ℓ where
    takes : {l : Locals M} → l.free + k ≤ free → Takes free k (filling l)
    gives_up : {slots : List (Msg M)} → Takes free k (failure slots)

  Takes-suc : {free j k : ℕ} {r : Filling M} → k ≤ suc j → Takes free j r → Takes (suc free) k r
  Takes-suc h (takes e) = takes (omega (arith, h, e))
  Takes-suc h gives_up = gives_up

  length-next :
      (sync : Bool) (m : M) (ms : List M)
      → length (m ∷ ms) ≤ suc (length (if sync then m ∷ ms else ms))
  length-next true m ms = omega arith
  length-next false m ms = omega arith

  fill-Takes :
      (free : ℕ) (ms : List M) (r : Filling M)
      → Leaves free r
      → Takes free (length ms) (fill base free ms r)
  unfolding fill
  fill-Takes free ms (failure slots) h = gives_up
  fill-Takes free [] (filling l) (leaves e) = takes (omega (arith, e))
  fill-Takes zero (m ∷ ms) (filling l) h = gives_up
  fill-Takes (suc free) (m ∷ ms) (filling l) h =
      let sync : Bool = free % dbell_compl_thres == 0 in
      let slots : List (Msg M) =
        set l.slots l.msg_idx (if sync then dma_sync l.msg_idx else user m) in
      let rest : List M = if sync then m ∷ ms else ms in
      Takes-suc (length-next sync m ms) (
        fill-Takes free rest (advance base (record l { free = free; slots = slots }))
          (advance-Leaves free (record l { free = free; slots = slots }) refl))

  last_doorbell-Takes :
      {free k : ℕ} (r : Filling M) → Takes free k r → Takes free k (last_doorbell r)
  unfolding last_doorbell
  last_doorbell-Takes (failure slots) h = gives_up
  last_doorbell-Takes {free = free} {k = k} (filling l) (takes e) =
      if-cases (Takes free k) (l.num_dbell_qmsgs == 0) (λ h. takes e)
        (λ h.
          if-cases (Takes free k) (leb dbell_max_pending l.pending) (λ x. gives_up) (λ x. takes e))

  pub loop-Takes :
      (free : ℕ) (ms : List M) (l : Locals M)
      → l.free ≡ free
      → Takes free (length ms) (last_doorbell (fill base free ms (filling l)))
  loop-Takes free ms l e =
      last_doorbell-Takes (fill base free ms (filling l))
        (fill-Takes free ms (filling l) (leaves e))
