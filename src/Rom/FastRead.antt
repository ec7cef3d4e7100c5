-- ===== src/Rom/FastRead.antt =====
-- What rom_fast_read does to the card, on each of its ways out.
use mathlib.Core.Path.{subst}
use hp_nx_nic.Prelude.{
  ℕ, zero, suc, ◌<◌, ◌≡◌, refl, sym, ap, ◌∙◌, Bool, true, false, Option, none, some, ◌∷◌, ◌==◌, ◌/◌,
  ◌%◌, if◌then◌else◌, arith, if-cases,
}
use hp_nx_nic.Card.{
  sem2_lock, sem2_unlock, rom_lock_id, romusb_glb_status, romusb_rom_abyte_cnt,
  romusb_rom_dummy_byte_cnt, romusb_rom_rdata, get, put, Trace, Responder,
}
use hp_nx_nic.Card.Semaphore.{
  acquire, reads, reads-suc, NonePasses, NonePasses-suc, answer_after, answer_after-suc, Acquires,
  acquire-Acquires,
}
use hp_nx_nic.Rom.{
  rom_lock_driver, rom_lock_timeout, rom_locked, rom_lock, wait_rom, wait_rom_done, rom_read,
  start_read, do_rom_fast_read, lock_next, lock_loop, read_locked, rom_fast_read,
}

-- Bit 1 of the status says that the flash is ready.
abbrev pub is_done : ℕ → Bool
is_done status = if status / 2 % 2 == 0 then false else true

-- The flash is polled until it is ready, or with `n` reads that find it busy and one more.
abbrev pub Waits : Responder → ℕ → Trace → Bool × Trace → Type 0
Waits card n t (true, t') =
    (k : ℕ) × (k < n)
    × NonePasses card romusb_glb_status is_done k t
    × (is_done (answer_after card romusb_glb_status k t) ≡ true)
    × (t' ≡ reads romusb_glb_status (suc k) t)
Waits card n t (false, t') =
    (k : ℕ) × (k ≡ n)
    × NonePasses card romusb_glb_status is_done k t
    × (t' ≡ reads romusb_glb_status (suc k) t)

Waits-suc :
    (card : Responder) (n : ℕ) (t : Trace) (r : Bool × Trace)
    → is_done (card t romusb_glb_status) ≡ false
    → Waits card n (get romusb_glb_status ∷ t) r
    → Waits card (suc n) t r
Waits-suc card n t (true, t') e (k, le, busy, ready, same) = (
  suc k,
  omega arith,
  NonePasses-suc card romusb_glb_status is_done k t e busy,
  ap is_done (sym (answer_after-suc card romusb_glb_status k t)) ∙ ready,
  same ∙ reads-suc romusb_glb_status (suc k) t,
)
Waits-suc card n t (false, t') e (k, eq, busy, same) = (
  suc k,
  omega (arith, eq),
  NonePasses-suc card romusb_glb_status is_done k t e busy,
  same ∙ reads-suc romusb_glb_status (suc k) t,
)

wait_rom-Waits : (card : Responder) (n : ℕ) (t : Trace) → Waits card n t (wait_rom card n t)
unfolding wait_rom
wait_rom-Waits card zero t = (0, refl, (λ i h. absurd (omega arith)), refl)
wait_rom-Waits card (suc n) t =
    if-cases (Waits card (suc n) t) (card t romusb_glb_status / 2 % 2 == 0)
      (λ e.
        Waits-suc card n t (wait_rom card n (get romusb_glb_status ∷ t)) (ground (arith, e))
          (wait_rom-Waits card n (get romusb_glb_status ∷ t)))
      (λ e. (0, omega arith, (λ i h. absurd (omega arith)), ground (arith, e), refl))

-- The accesses of a read that ends: the counts are cleared and the data is read.
abbrev pub finish_read : Trace → Trace
finish_read t = put romusb_rom_abyte_cnt 0 ∷ put romusb_rom_dummy_byte_cnt 0 ∷ t

-- The two ways out of do_rom_fast_read: the flash was ready in one of the first 99 polls, or not.
abbrev pub FastReads : Responder → ℕ → Trace → Option ℕ × Trace → Type 0
FastReads card addr t (some value, t') =
    (u : Trace) × Waits card 99 (start_read addr t) (true, u)
    × (t' ≡ get romusb_rom_rdata ∷ finish_read u)
    × (value ≡ card (finish_read u) romusb_rom_rdata)
FastReads card addr t (none, t') = Waits card 99 (start_read addr t) (false, t')

module _ (card : Responder) (addr : ℕ) where
  rom_read-FastReads :
      (t : Trace) (r : Bool × Trace)
      → Waits card 99 (start_read addr t) r
      → FastReads card addr t (rom_read card r)
  unfolding rom_read
  rom_read-FastReads t (true, u) w = (u, w, refl, refl)
  rom_read-FastReads t (false, u) w = w

  do_rom_fast_read-FastReads : (t : Trace) → FastReads card addr t (do_rom_fast_read card addr t)
  unfolding do_rom_fast_read wait_rom_done
  do_rom_fast_read-FastReads t =
      rom_read-FastReads t (wait_rom card 99 (start_read addr t))
        (wait_rom-Waits card 99 (start_read addr t))

  -- `n` attempts in a row to take the semaphore ended without it.
  abbrev pub Refusals : ℕ → Trace → Trace → Type 0
  Refusals zero t u = u ≡ t
  Refusals (suc n) t u =
      (t1 : Trace) × Acquires card sem2_lock rom_lock_timeout t (false, t1) × Refusals n t1 u

  -- The owner is noted if the semaphore was held.
  abbrev pub noted : Bool → Trace → Trace
  noted held t = if held then put rom_lock_id rom_lock_driver ∷ t else t

  -- How rom_fast_read ends. `out` is what the read under the lock answers.
  pub data Ends (loops : ℕ) (t : Trace) (value : Option ℕ) (t' : Trace) : Type 0 where
    read_under_lock :
        (j : ℕ) (t0 t1 : Trace) (out : Option ℕ × Trace)
        → j < loops
        → Refusals j t t0
        → Acquires card sem2_lock rom_lock_timeout t0 (true, t1)
        → FastReads card addr (put rom_lock_id rom_lock_driver ∷ t1) out
        → value ≡ out.0
        → t' ≡ get sem2_unlock ∷ out.1
        → Ends loops t value t'
    gave_up :
        (t0 t1 : Trace) (held : Bool)
        → Refusals loops t t0
        → Acquires card sem2_lock rom_lock_timeout t0 (held, t1)
        → value ≡ none
        → t' ≡ noted held t1
        → Ends loops t value t'

  -- The locking loop ends with the lock and loops left, or with its last attempt.
  data LockEnds (loops : ℕ) (t : Trace) : ℕ × Trace → Type 0 where
    taken :
        (j left : ℕ) {t' : Trace} (t0 t1 : Trace)
        → j < loops
        → Refusals j t t0
        → Acquires card sem2_lock rom_lock_timeout t0 (true, t1)
        → t' ≡ put rom_lock_id rom_lock_driver ∷ t1
        → LockEnds loops t (suc left, t')
    exhausted :
        {t' : Trace} (t0 t1 : Trace) (held : Bool)
        → Refusals loops t t0
        → Acquires card sem2_lock rom_lock_timeout t0 (held, t1)
        → t' ≡ noted held t1
        → LockEnds loops t (zero, t')

  rom_locked-noted : (r : Bool × Trace) → rom_locked r ≡ (r.0, noted r.0 r.1)
  unfolding rom_locked
  rom_locked-noted (true, t) = refl
  rom_locked-noted (false, t) = refl

  LockEnds-suc :
      (n : ℕ) (t t1 : Trace) (r : ℕ × Trace)
      → Acquires card sem2_lock rom_lock_timeout t (false, t1)
      → LockEnds n t1 r
      → LockEnds (suc n) t r
  LockEnds-suc n t t1 r a (taken j left u0 u1 l refs held e) =
      taken (suc j) left u0 u1 (omega arith) (t1, a, refs) held e
  LockEnds-suc n t t1 r a (exhausted u0 u1 held refs last e) =
      exhausted u0 u1 held (t1, a, refs) last e

  lock_next-LockEnds :
      (n : ℕ) (t : Trace) (r : Bool × Trace)
      → Acquires card sem2_lock rom_lock_timeout t r
      → ((u : Trace) → LockEnds n u (lock_loop card n u))
      → LockEnds (suc n) t (lock_next (lock_loop card n) n (rom_locked r))
  unfolding lock_next rom_locked
  lock_next-LockEnds n t (true, t1) a ih = taken 0 n t t1 (omega arith) refl a refl
  lock_next-LockEnds n t (false, t1) a ih = LockEnds-suc n t t1 (lock_loop card n t1) a (ih t1)

  lock_loop-LockEnds : (loops : ℕ) (t : Trace) → LockEnds loops t (lock_loop card loops t)
  unfolding lock_loop rom_lock
  lock_loop-LockEnds zero t =
      let r : Bool × Trace = acquire card sem2_lock rom_lock_timeout t in
      exhausted t r.1 r.0 refl (acquire-Acquires card sem2_lock rom_lock_timeout t)
        (ap (λ (x : Bool × Trace). x.1) (rom_locked-noted r))
  lock_loop-LockEnds (suc n) t =
      lock_next-LockEnds n t (acquire card sem2_lock rom_lock_timeout t)
        (acquire-Acquires card sem2_lock rom_lock_timeout t) (lock_loop-LockEnds n)

  read_locked-Ends :
      (loops : ℕ) (t : Trace) (r : ℕ × Trace)
      → LockEnds loops t r
      → Ends loops t (read_locked card addr r).0 (read_locked card addr r).1
  unfolding read_locked
  read_locked-Ends loops t r (exhausted t0 t1 held refs last e) =
      gave_up t0 t1 held refs last refl e
  read_locked-Ends loops t r (taken j left {t' = t'} t0 t1 l refs held e) =
      read_under_lock j t0 t1 (do_rom_fast_read card addr t') l refs held
        (subst (λ u. FastReads card addr u (do_rom_fast_read card addr t')) e
          (do_rom_fast_read-FastReads t'))
        refl refl

  -- rom_fast_read, for any answers of the card and any limit of loops, takes the semaphore in one of
  -- its first `loops` attempts, by the answers of the semaphore's register, reads under the lock and
  -- gives the semaphore back last, also where the flash is not ready in the first 99 of 100 polls;
  -- or all of these attempts end without it, and it fails behind one more attempt, whose lock it
  -- keeps if that one succeeds.
  pub rom_fast_read-Ends :
      (loops : ℕ) (t : Trace)
      → Ends loops t (rom_fast_read card loops addr t).0 (rom_fast_read card loops addr t).1
  unfolding rom_fast_read
  rom_fast_read-Ends loops t =
      read_locked-Ends loops t (lock_loop card loops t) (lock_loop-LockEnds loops t)
