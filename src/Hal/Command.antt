-- ===== src/Hal/Command.antt =====
-- What issue_cmd does to the card: the order of the registers, and the semaphore on every path.
use hp_nx_nic.Prelude.{
  ℕ, zero, suc, ◌≡◌, ◌≢◌, refl, ◌∙◌, Bool, true, false, ◌∷◌, ◌==◌, arith, if-cases, ◌<◌,
}
use mathlib.Core.Path.{subst}
use hp_nx_nic.Card.{sem5_lock, sem5_unlock, cdrp_crb, arg1_crb, get, Trace, Responder}
use hp_nx_nic.Card.Semaphore.{
  acquire, reads, reads-suc, NonePasses, NonePasses-suc, answer_after, answer_after-suc, Acquires,
  acquire-Acquires,
}
use hp_nx_nic.Hal.{
  crb_retry_count, rsp_fail, rsp_timeout, rcode_success, rcode_timeout, is_rsp, api_lock, poll,
  poll_rsp, command, respond, issue_locked, issue_cmd,
}

-- How polling with `n` retries ends: with the first answer of the card that is a response, or with
-- NX_CDRP_RSP_TIMEOUT behind one more read, if there was none.
pub data Polls (card : Responder) (n : ℕ) (t : Trace) : ℕ × Trace → Type 0 where
  spoke :
      {rsp : ℕ} {u : Trace} (k : ℕ)
      → k < n
      → NonePasses card cdrp_crb is_rsp k t
      → is_rsp rsp ≡ true
      → rsp ≡ answer_after card cdrp_crb k t
      → u ≡ reads cdrp_crb (suc k) t
      → Polls card n t (rsp, u)
  silent :
      {rsp : ℕ} {u : Trace} (k : ℕ)
      → k ≡ n
      → NonePasses card cdrp_crb is_rsp k t
      → rsp ≡ rsp_timeout
      → u ≡ reads cdrp_crb (suc k) t
      → Polls card n t (rsp, u)

Polls-suc :
    (card : Responder) (n : ℕ) (t : Trace) (r : ℕ × Trace)
    → is_rsp (card t cdrp_crb) ≡ false
    → Polls card n (get cdrp_crb ∷ t) r
    → Polls card (suc n) t r
Polls-suc card n t r e (spoke k l none_of is from u) =
    spoke (suc k) (omega arith) (NonePasses-suc card cdrp_crb is_rsp k t e none_of) is
      (from ∙ answer_after-suc card cdrp_crb k t) (u ∙ reads-suc cdrp_crb (suc k) t)
Polls-suc card n t r e (silent k l none_of is u) =
    silent (suc k) (omega (arith, l)) (NonePasses-suc card cdrp_crb is_rsp k t e none_of) is
      (u ∙ reads-suc cdrp_crb (suc k) t)

poll-Polls : (card : Responder) (n : ℕ) (t : Trace) → Polls card n t (poll card n t)
unfolding poll
poll-Polls card zero t = silent 0 refl (λ i h. absurd (omega arith)) refl refl
poll-Polls card (suc n) t =
    if-cases (Polls card (suc n) t) (is_rsp (card t cdrp_crb))
      (λ e. spoke 0 (omega arith) (λ i h. absurd (omega arith)) e refl refl)
      (λ e.
        Polls-suc card n t (poll card n (get cdrp_crb ∷ t)) e
          (poll-Polls card n (get cdrp_crb ∷ t)))

-- The ways of a call: the semaphore is not had and nothing is written; or it is had, the command is
-- written, the response is polled for, and the last access gives the semaphore back. The result goes
-- by the response.
pub data Issues (card : Responder) (t : Trace) (written : Trace → Trace) (rcode : ℕ) (t' : Trace)
    : Type 0 where
  locked_out :
      Acquires card sem5_lock crb_retry_count t (false, t')
      → rcode ≡ rcode_timeout
      → Issues card t written rcode t'
  timed_out :
      (t1 t2 : Trace)
      → Acquires card sem5_lock crb_retry_count t (true, t1)
      → Polls card crb_retry_count (written t1) (rsp_timeout, t2)
      → rcode ≡ rcode_timeout
      → t' ≡ get sem5_unlock ∷ t2
      → Issues card t written rcode t'
  failed :
      (t1 t2 : Trace)
      → Acquires card sem5_lock crb_retry_count t (true, t1)
      → Polls card crb_retry_count (written t1) (rsp_fail, t2)
      → rcode ≡ card t2 arg1_crb
      → t' ≡ get sem5_unlock ∷ get arg1_crb ∷ t2
      → Issues card t written rcode t'
  answered :
      (t1 t2 : Trace) (rsp : ℕ)
      → Acquires card sem5_lock crb_retry_count t (true, t1)
      → Polls card crb_retry_count (written t1) (rsp, t2)
      → rsp ≢ rsp_timeout
      → rsp ≢ rsp_fail
      → rcode ≡ rcode_success
      → t' ≡ get sem5_unlock ∷ t2
      → Issues card t written rcode t'

module _ (card : Responder) (t : Trace) (written : Trace → Trace) (t1 : Trace)
    (lock : Acquires card sem5_lock crb_retry_count t (true, t1)) where
  respond-Issues :
      (rsp : ℕ) (t2 : Trace)
      → Polls card crb_retry_count (written t1) (rsp, t2)
      → Issues card t written (respond card (rsp, t2)).0 (respond card (rsp, t2)).1
  unfolding respond
  respond-Issues rsp t2 p =
      let Out : ℕ × Trace → Type 0 = λ r. Issues card t written r.0 r.1 in
      if-cases Out (rsp == rsp_timeout)
        (λ e. timed_out t1 t2 lock (polled rsp_timeout (ground arith)) refl refl)
        (λ e.
          if-cases Out (rsp == rsp_fail)
            (λ f. failed t1 t2 lock (polled rsp_fail (ground arith)) refl refl)
            (λ f. answered t1 t2 rsp lock p (ground arith) (ground arith) refl refl))
    where
      polled : (n : ℕ) → rsp ≡ n → Polls card crb_retry_count (written t1) (n, t2)
      polled n e = subst (λ m. Polls card crb_retry_count (written t1) (m, t2)) e p

module _ (card : Responder) (pci_fn version arg1 arg2 arg3 cmd : ℕ) (t : Trace) where
  -- The registers that are written.
  abbrev written : Trace → Trace
  written = command pci_fn version arg1 arg2 arg3 cmd

  issue_locked-Issues :
      (r : Bool × Trace)
      → Acquires card sem5_lock crb_retry_count t r
      → Issues card t written
          (issue_locked card pci_fn version arg1 arg2 arg3 cmd r).0
          (issue_locked card pci_fn version arg1 arg2 arg3 cmd r).1
  unfolding issue_locked poll_rsp
  issue_locked-Issues (false, t1) a = locked_out a refl
  issue_locked-Issues (true, t1) a =
      let r : ℕ × Trace = poll card crb_retry_count (written t1) in
      respond-Issues card t written t1 a r.0 r.1 (poll-Polls card crb_retry_count (written t1))

  -- issue_cmd, for any answers of the card, waits for the semaphore until an answer that is not 0,
  -- in at most 4001 reads. Without the semaphore it returns NX_RCODE_TIMEOUT and writes nothing;
  -- with it, it writes the signature and the three arguments before the command, writes nothing
  -- else, polls until the first response, in at most 4001 reads, and gives the semaphore back last.
  -- The result is NX_RCODE_TIMEOUT where no response came in time or the response says so, the
  -- card's first argument register where it says that the command failed, and NX_RCODE_SUCCESS for
  -- any other response.
  pub issue_cmd-Issues :
      Issues card t
        (command pci_fn version arg1 arg2 arg3 cmd)
        (issue_cmd card pci_fn version arg1 arg2 arg3 cmd t).0
        (issue_cmd card pci_fn version arg1 arg2 arg3 cmd t).1
  unfolding issue_cmd api_lock
  issue_cmd-Issues =
      issue_locked-Issues (acquire card sem5_lock crb_retry_count t)
        (acquire-Acquires card sem5_lock crb_retry_count t)
