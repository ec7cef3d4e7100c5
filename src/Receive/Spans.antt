-- ===== src/Receive/Spans.antt =====
-- The descriptors of the status ring that messages span, in driver/unm_nic_main.c.
use hp_nx_nic.Prelude.{ℕ, zero, suc, ◌+◌, ◌-◌, ◌≡◌, refl, ap, List, [], ◌∷◌, ◌++◌, arith}
use hp_nx_nic.Receive.Status.{
  StatusDesc, Message, process_rcv, process_lro_contiguous, process_lro, callback, callback_word,
  next_status, release, take_middle,
}

-- The descriptors that a message takes.
abbrev pub span : Message → ℕ
span (process_rcv d) = 1
span (process_lro_contiguous d) = 1
span (process_lro d ds) = suc (suc (d.desc_cnt - 2))
span (callback d ds) = suc (suc (d.desc_cnt - 2))
span (callback_word d) = 1

abbrev pub spans : List Message → ℕ
spans [] = 0
spans (m ∷ ms) = span m + spans ms

-- The index `n` places on, and the ring with `n` descriptors from an index on handed back.
abbrev pub status_after : ℕ → ℕ → ℕ → ℕ
status_after size i zero = i
status_after size i (suc n) = status_after size (next_status size i) n

abbrev pub released : ℕ → List StatusDesc → ℕ → ℕ → List StatusDesc
released size ring i zero = ring
released size ring i (suc n) = released size (release ring i) (next_status size i) n

pub status_after-next :
    (size i n : ℕ) → next_status size (status_after size i n) ≡ status_after size i (suc n)
status_after-next size i zero = refl
status_after-next size i (suc n) = status_after-next size (next_status size i) n

pub status_after_add :
    (size i n m k : ℕ)
    → k ≡ n + m
    → status_after size (status_after size i n) m ≡ status_after size i k
status_after_add size i zero m k e = let same : m ≡ k = omega arith in ap (status_after size i) same
status_after_add size i (suc n) m zero e = absurd (omega arith)
status_after_add size i (suc n) m (suc k) e =
    status_after_add size (next_status size i) n m k (omega arith)

pub released_add :
    (size : ℕ) (ring : List StatusDesc) (i n m k : ℕ)
    → k ≡ n + m
    → released size (released size ring i n) (status_after size i n) m ≡ released size ring i k
released_add size ring i zero m k e =
    let same : m ≡ k = omega arith in ap (released size ring i) same
released_add size ring i (suc n) m zero e = absurd (omega arith)
released_add size ring i (suc n) m (suc k) e =
    released_add size (release ring i) (next_status size i) n m k (omega arith)

pub released-snoc :
    (size : ℕ) (ring : List StatusDesc) (i n : ℕ)
    → release (released size ring i n) (status_after size i n) ≡ released size ring i (suc n)
released-snoc size ring i zero = refl
released-snoc size ring i (suc n) = released-snoc size (release ring i) (next_status size i) n

pub take_middle-released :
    (size n : ℕ) (ring : List StatusDesc) (i : ℕ)
    → let (ds, ring', last) = take_middle size n ring i in
      (ring' ≡ released size ring (next_status size i) n) × (last ≡ status_after size i n)
unfolding take_middle
take_middle-released size zero ring i = (refl, refl)
take_middle-released size (suc n) ring i =
    take_middle-released size n (release ring (next_status size i)) (next_status size i)

pub spans_append : (xs ys : List Message) → spans (xs ++ ys) ≡ spans xs + spans ys
spans_append [] ys = omega arith
spans_append (x ∷ xs) ys = omega (arith, spans_append xs ys)
