-- ===== src/Card/Semaphore.antt =====
-- Waiting for a register of the card, and for a hardware semaphore, which rom_lock and api_lock do
-- alike.
use hp_nx_nic.Prelude.{
  ℕ, zero, suc, ◌≤◌, ◌<◌, ◌≡◌, ◌≢◌, refl, sym, ap, ◌∙◌, Bool, true, false, ◌∷◌, ◌==◌, if◌then◌else◌,
  arith, if-cases, Bool-cases, inl, inr,
}
use hp_nx_nic.Card.{Register, get, Trace, Responder}

-- The loop around the read of the lock register, with the retries that are left: whether it ends
-- with the lock, which the code also assumes after an answer other than 0 and 1.
unfoldable pub acquire : Responder → Register → ℕ → Trace → Bool × Trace
acquire card lock zero t = (card t lock == 1, get lock ∷ t)
acquire card lock (suc n) t =
    let rest = acquire card lock n (get lock ∷ t) in
    if card t lock == 0 then rest else (true, get lock ∷ t)

abbrev pub reads : Register → ℕ → Trace → Trace
reads r zero t = t
reads r (suc n) t = get r ∷ reads r n t

pub reads-suc : (r : Register) (n : ℕ) (t : Trace) → reads r n (get r ∷ t) ≡ reads r (suc n) t
reads-suc r zero t = refl
reads-suc r (suc n) t = rw (reads-suc r n t) refl

-- None of the first `k` reads in a row passes the test.
abbrev pub NonePasses : Responder → Register → (ℕ → Bool) → ℕ → Trace → Type 0
NonePasses card r test k t = (i : ℕ) → i < k → test (card (reads r i t) r) ≡ false

-- What the read behind `k` others in a row gives.
abbrev pub answer_after : Responder → Register → ℕ → Trace → ℕ
answer_after card r k t = card (reads r k t) r

pub answer_after-suc :
    (card : Responder) (r : Register) (k : ℕ) (t : Trace)
    → answer_after card r k (get r ∷ t) ≡ answer_after card r (suc k) t
answer_after-suc card r k t = ap (λ u. card u r) (reads-suc r k t)

pub NonePasses-suc :
    (card : Responder) (r : Register) (test : ℕ → Bool) (k : ℕ) (t : Trace)
    → test (card t r) ≡ false
    → NonePasses card r test k (get r ∷ t)
    → NonePasses card r test (suc k) t
NonePasses-suc card r test k t e h zero l = e
NonePasses-suc card r test k t e h (suc i) l =
    ap test (sym (answer_after-suc card r i t)) ∙ h i (omega arith)

abbrev pub nonzero : ℕ → Bool
nonzero v = if v == 0 then false else true

-- How a wait with `n` retries ends: with the lock behind the first answer that is not 0, which is 1
-- if it was the last read; or without it, after answers of 0 and a last one that is not 1.
pub data Acquires (card : Responder) (lock : Register) (n : ℕ) (t : Trace)
    : Bool × Trace → Type 0 where
  had :
      {u : Trace} (k : ℕ)
      → k ≤ n
      → NonePasses card lock nonzero k t
      → nonzero (answer_after card lock k t) ≡ true
      → (k ≡ n → answer_after card lock k t ≡ 1)
      → u ≡ reads lock (suc k) t
      → Acquires card lock n t (true, u)
  refused :
      {u : Trace} (k : ℕ)
      → k ≡ n
      → NonePasses card lock nonzero k t
      → answer_after card lock k t ≢ 1
      → u ≡ reads lock (suc k) t
      → Acquires card lock n t (false, u)

Acquires-suc :
    (card : Responder) (lock : Register) (n : ℕ) (t : Trace) (r : Bool × Trace)
    → nonzero (card t lock) ≡ false
    → Acquires card lock n (get lock ∷ t) r
    → Acquires card lock (suc n) t r
Acquires-suc card lock n t r e (had k le none_of some_of last u) =
    had (suc k) (omega arith) (NonePasses-suc card lock nonzero k t e none_of)
      (ap nonzero (sym (answer_after-suc card lock k t)) ∙ some_of)
      (λ h. sym (answer_after-suc card lock k t) ∙ last (omega (arith, h)))
      (u ∙ reads-suc lock (suc k) t)
Acquires-suc card lock n t r e (refused k eq none_of last u) =
    refused (suc k) (omega (arith, eq)) (NonePasses-suc card lock nonzero k t e none_of)
      (λ h. last (answer_after-suc card lock k t ∙ h)) (u ∙ reads-suc lock (suc k) t)

-- The loop reads the lock register, once for each retry and once more at most, and nothing else; it
-- ends with the lock or without it by the answers of the card.
pub acquire-Acquires :
    (card : Responder) (lock : Register) (n : ℕ) (t : Trace)
    → Acquires card lock n t (acquire card lock n t)
unfolding acquire
acquire-Acquires card lock zero t = elim (Bool-cases (card t lock == 1)) [
  | inl e ↦ rw e (
      had 0 (omega arith) (λ i h. absurd (omega arith)) (ground (arith, e)) (λ h. ground (arith, e))
        refl)
  | inr e ↦ rw e (refused 0 refl (λ i h. absurd (omega arith)) (λ h. ground (arith, e, h)) refl)
]
acquire-Acquires card lock (suc n) t =
    if-cases (Acquires card lock (suc n) t) (card t lock == 0)
      (λ e.
        Acquires-suc card lock n t (acquire card lock n (get lock ∷ t)) (ground (arith, e))
          (acquire-Acquires card lock n (get lock ∷ t)))
      (λ e.
        had 0 (omega arith) (λ i h. absurd (omega arith)) (ground (arith, e))
          (λ h. absurd (omega arith)) refl)
