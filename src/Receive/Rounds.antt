-- ===== src/Receive/Rounds.antt =====
-- What a round of the loop of unm_process_rcv_ring takes, in driver/unm_nic_main.c.
use hp_nx_nic.Prelude.{
  ℕ, suc, ◌+◌, ◌-◌, ◌<◌, ◌≡◌, ◌≢◌, refl, ap, ◌∙◌, Bool, true, false, List, [], ◌∷◌, ◌++◌, arith,
  ltb, ◌==◌, get_elem?, if-cases,
}
use mathlib.Core.Path.{ap₂}
use hp_nx_nic.Prelude.Words.{sub32}
use hp_nx_nic.Receive.Status.{
  StatusDesc, Message, process_rcv, process_lro_contiguous, process_lro, callback, callback_word,
  msgtype_nic_lro_contiguous, msgtype_nic_lro_chained, SdsRing, Polling, next_status, release,
  host_owns, take_middle, single, several, is_whole, status_index, is_receive, stop_chained,
  process_message,
}
use hp_nx_nic.Receive.Spans.{
  span, spans, status_after, released, status_after-next, released-snoc, take_middle-released,
}

-- What a run of the loop took.
pub record Takes (size : ℕ) (ms : List Message) (s s' : Polling) : Type 0 where
  pub called : s'.calls ≡ s.calls ++ ms
  pub handed_back : s'.ring ≡ released size s.ring s.consumer (spans ms)
  pub moved : s'.consumer ≡ status_after size s.consumer (spans ms)

-- The descriptor that a message begins with.
abbrev pub head : Message → StatusDesc
head (process_rcv d) = d
head (process_lro_contiguous d) = d
head (process_lro d ds) = d
head (callback d ds) = d
head (callback_word d) = d

-- The descriptor begins a chained message, or another one of several descriptors.
abbrev pub IsChained : SdsRing → StatusDesc → Type 0
IsChained sds d = (is_receive sds d ≡ false) × (d.opcode ≡ msgtype_nic_lro_chained)

abbrev pub IsExtended : SdsRing → StatusDesc → Type 0
IsExtended sds d =
    (is_receive sds d ≡ false)
    × (d.opcode ≢ msgtype_nic_lro_contiguous)
    × (d.opcode ≢ msgtype_nic_lro_chained)
    × (1 < d.desc_cnt)

-- The last descriptor of a message that begins with `d` is not the host's, in the ring as it is left.
abbrev pub IsCut : ℕ → List StatusDesc → ℕ → StatusDesc → Type 0
IsCut size ring i d =
    host_owns (get_elem? ring (status_index size (sub32 (i + d.desc_cnt) 1))) ≡ false

-- The ways a round for the descriptor `d` ends.
pub data Rounds (sds : SdsRing) (d : StatusDesc) (s : Polling) : Bool × Polling → Type 0 where
  took :
      {s' : Polling} (m : Message)
      → head m ≡ d
      → Takes sds.max_rx_desc_count (m ∷ []) s s'
      → s'.count ≡ s.count + 1
      → Rounds sds d s (true, s')
  chain_waits :
      IsChained sds d
      → IsCut sds.max_rx_desc_count s.ring s.consumer d
      → Rounds sds d s (false, stop_chained s)
  message_waits :
      IsExtended sds d → IsCut sds.max_rx_desc_count s.ring s.consumer d → Rounds sds d s (false, s)

single-Takes :
    (sds : SdsRing) (m : Message) (s : Polling)
    → span m ≡ 1
    → Rounds sds (head m) s (true, single sds.max_rx_desc_count m s)
single-Takes sds m s e =
    let size = sds.max_rx_desc_count in
    let one : 1 ≡ spans (m ∷ []) = omega (arith, e) in
    took m refl
      (record {
        called = refl;
        handed_back = ap (released size s.ring s.consumer) one;
        moved = ap (status_after size s.consumer) one;
      })
      refl

several-Takes :
    (sds : SdsRing) (d : StatusDesc) (n : ℕ) (m : List StatusDesc → Message) (s : Polling)
    → ((ds : List StatusDesc) → head (m ds) ≡ d)
    → ((ds : List StatusDesc) → span (m ds) ≡ suc (suc n))
    → Rounds sds d s (true, several sds.max_rx_desc_count m n s)
unfolding several
several-Takes sds d n m s begins e =
    let size = sds.max_rx_desc_count in
    let c = s.consumer in
    let start = release s.ring c in
    let (ds, ring, i) = take_middle size n start c in
    let (ring_is, last_is) = take_middle-released size n start c in
    let all : suc (suc n) ≡ spans (m ds ∷ []) = omega (arith, e ds) in
    let last : next_status size i ≡ status_after size c (suc n) =
      ap (next_status size) last_is ∙ status_after-next size c n in
    took (m ds) (begins ds)
      (record {
        called = refl;
        handed_back =
            ap₂ release ring_is last
            ∙ (released-snoc size start (next_status size c) n ∙ ap (released size s.ring c) all);
        moved =
            ap (next_status size) last
            ∙ (status_after-next size c (suc n) ∙ ap (status_after size c) all);
      })
      refl

pub process_message-Rounds :
    (sds : SdsRing) (d : StatusDesc) (s : Polling) → Rounds sds d s (process_message sds d s)
unfolding process_message
process_message-Rounds sds d s =
    let whole : Bool = is_whole sds.max_rx_desc_count d.desc_cnt s in
    if-cases (Rounds sds d s) (is_receive sds d) (λ e. single-Takes sds (process_rcv d) s refl)
      (λ e.
        if-cases (Rounds sds d s) (d.opcode == msgtype_nic_lro_contiguous)
          (λ f. single-Takes sds (process_lro_contiguous d) s refl)
          (λ f.
            if-cases (Rounds sds d s) (d.opcode == msgtype_nic_lro_chained)
              (λ g.
                if-cases (Rounds sds d s) whole
                  (λ w.
                    several-Takes sds d (d.desc_cnt - 2) (process_lro d) s (λ ds. refl)
                      (λ ds. refl))
                  (λ w. chain_waits (e, ground arith) w))
              (λ g.
                if-cases (Rounds sds d s) (ltb 1 d.desc_cnt)
                  (λ c.
                    if-cases (Rounds sds d s) whole
                      (λ w.
                        several-Takes sds d (d.desc_cnt - 2) (callback d) s (λ ds. refl)
                          (λ ds. refl))
                      (λ w. message_waits (e, ground arith, ground arith, ground arith) w))
                  (λ c. single-Takes sds (callback_word d) s refl))))
