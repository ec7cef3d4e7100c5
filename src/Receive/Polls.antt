-- ===== src/Receive/Polls.antt =====
-- What unm_process_rcv_ring takes from the status ring, in driver/unm_nic_main.c.
use hp_nx_nic.Prelude.{
  ℕ, zero, suc, ◌+◌, ◌≤◌, ◌<◌, ◌≡◌, refl, sym, ap, ◌∙◌, Bool, true, false, Option, none, some, List,
  [], ◌∷◌, ◌++◌, arith, ltb, if◌then◌else◌, length, get_elem?, if-cases,
}
use mathlib.Core.Path.{ap₂, subst}
use mathlib.Core.List.{append-nil, append_assoc}
use hp_nx_nic.Receive.Status.{
  StatusDesc, Message, SdsRing, Polling, host_owns, process_message, poll,
}
use hp_nx_nic.Receive.Spans.{
  span, spans, status_after, released, status_after_add, released_add, spans_append,
}
use hp_nx_nic.Receive.Rounds.{
  Takes, head, IsChained, IsExtended, IsCut, Rounds, took, chain_waits, message_waits,
  process_message-Rounds,
}

-- Why the loop ended in a state with `n` messages counted, and what its counter became: the rounds
-- were used up; or the descriptor behind the messages is not the host's, or is out of the ring; or
-- it begins a message whose last descriptor is not the host's yet. Only before a chained message is
-- the counter cut down.
pub data Stops (sds : SdsRing) (rounds taken n : ℕ) (s : Polling) : Type 0 where
  used_up : taken ≡ rounds → s.count ≡ n → Stops sds rounds taken n s
  not_owned :
      taken < rounds
      → host_owns (get_elem? s.ring s.consumer) ≡ false
      → s.count ≡ n
      → Stops sds rounds taken n s
  extended_waits :
      taken < rounds
      → (d : StatusDesc) → get_elem? s.ring s.consumer ≡ some d
      → host_owns (some d) ≡ true
      → IsExtended sds d
      → IsCut sds.max_rx_desc_count s.ring s.consumer d
      → s.count ≡ n
      → Stops sds rounds taken n s
  chained_waits :
      taken < rounds
      → (d : StatusDesc) → get_elem? s.ring s.consumer ≡ some d
      → host_owns (some d) ≡ true
      → IsChained sds d
      → IsCut sds.max_rx_desc_count s.ring s.consumer d
      → s.count ≡ (if ltb 0 n then 1 else 0)
      → Stops sds rounds taken n s

-- The messages begin one behind the other, each with a descriptor of the host's in the ring as the
-- messages before left it.
abbrev pub Begin : ℕ → List Message → List StatusDesc → ℕ → Type 0
Begin size [] ring i = Unit {0}
Begin size (m ∷ ms) ring i =
    (get_elem? ring i ≡ some (head m))
    × (host_owns (some (head m)) ≡ true)
    × Begin size ms (released size ring i (span m)) (status_after size i (span m))

-- What the loop takes in at most `rounds` rounds.
pub record Polls (sds : SdsRing) (rounds : ℕ) (s s' : Polling) : Type 0 where
  pub messages : List Message
  pub takes : Takes sds.max_rx_desc_count messages s s'
  pub few : length messages ≤ rounds
  pub begin : Begin sds.max_rx_desc_count messages s.ring s.consumer
  pub stops : Stops sds rounds (length messages) (s.count + length messages) s'

Takes-trans :
    (size : ℕ) (xs ys : List Message) (s s1 s2 : Polling)
    → Takes size xs s s1
    → Takes size ys s1 s2
    → Takes size (xs ++ ys) s s2
Takes-trans size xs ys s s1 s2 p q =
    let c = s.consumer in
    record {
      called = q.called ∙ (ap (λ l. l ++ ys) p.called ∙ append_assoc s.calls xs ys);
      handed_back =
          q.handed_back
          ∙ (ap₂ (λ ring i. released size ring i (spans ys)) p.handed_back p.moved
              ∙ released_add size s.ring c (spans xs) (spans ys) (spans (xs ++ ys))
                  (spans_append xs ys));
      moved =
          q.moved
          ∙ (ap (λ i. status_after size i (spans ys)) p.moved
              ∙ status_after_add size c (spans xs) (spans ys) (spans (xs ++ ys))
                  (spans_append xs ys));
    }

none_taken :
    (sds : SdsRing) (rounds : ℕ) (s : Polling)
    → Stops sds rounds 0 (s.count + 0) s
    → Polls sds rounds s s
none_taken sds rounds s why = record {
  messages = [];
  takes = record { called = sym (append-nil s.calls); handed_back = refl; moved = refl };
  few = omega arith;
  begin = tt;
  stops = why;
}

Stops-suc :
    (sds : SdsRing) (rounds taken n m : ℕ) (s : Polling)
    → n ≡ m
    → Stops sds rounds taken n s
    → Stops sds (suc rounds) (suc taken) m s
Stops-suc sds rounds taken n m s e (used_up a c) = used_up (omega (arith, a)) (c ∙ e)
Stops-suc sds rounds taken n m s e (not_owned l a c) = not_owned (omega arith) a (c ∙ e)
Stops-suc sds rounds taken n m s e (extended_waits l d at owned k cut c) =
    extended_waits (omega arith) d at owned k cut (c ∙ e)
Stops-suc sds rounds taken n m s e (chained_waits l d at owned k cut c) =
    chained_waits (omega arith) d at owned k cut (c ∙ ap (λ x. if ltb 0 x then 1 else 0) e)

module _ (sds : SdsRing) where
  Begin-next :
      (m : Message) (ms : List Message) (s s1 : Polling)
      → Takes sds.max_rx_desc_count (m ∷ []) s s1
      → Begin sds.max_rx_desc_count ms s1.ring s1.consumer
      → Begin sds.max_rx_desc_count ms
          (released sds.max_rx_desc_count s.ring s.consumer (span m))
          (status_after sds.max_rx_desc_count s.consumer (span m))
  Begin-next m ms s s1 t b =
      let size = sds.max_rx_desc_count in
      let one : spans (m ∷ []) ≡ span m = omega arith in
      subst
        (λ n. Begin size ms (released size s.ring s.consumer n) (status_after size s.consumer n))
        one
        (subst (λ i. Begin size ms (released size s.ring s.consumer (spans (m ∷ []))) i) t.moved
          (subst (λ ring. Begin size ms ring s1.consumer) t.handed_back b))

  round-Polls :
      (rounds : ℕ) (d : StatusDesc) (s : Polling) (out : Bool × Polling)
      → get_elem? s.ring s.consumer ≡ some d
      → host_owns (some d) ≡ true
      → Rounds sds d s out
      → ((s1 : Polling) → Polls sds rounds s1 (poll sds rounds s1))
      → Polls sds (suc rounds) s (if out.0 then poll sds rounds out.1 else out.1)
  round-Polls rounds d s out at owned (took {s' = s1} m begins t e) again =
      let size = sds.max_rx_desc_count in
      let q : Polls sds rounds s1 (poll sds rounds s1) = again s1 in
      record {
        messages = m ∷ q.messages;
        takes = Takes-trans size (m ∷ []) q.messages s s1 (poll sds rounds s1) t q.takes;
        few = omega (arith, q.few);
        begin = (
          at ∙ ap some (sym begins),
          ap (λ x. host_owns (some x)) begins ∙ owned,
          Begin-next m q.messages s s1 t q.begin,
        );
        stops =
            Stops-suc sds rounds (length q.messages) (s1.count + length q.messages)
              (s.count + length (m ∷ q.messages)) (poll sds rounds s1) (omega (arith, e)) q.stops;
      }
  round-Polls rounds d s out at owned (chain_waits chained cut) again =
      let none_more : s.count ≡ s.count + 0 = omega arith in
      record {
        messages = [];
        takes = record { called = sym (append-nil s.calls); handed_back = refl; moved = refl };
        few = omega arith;
        begin = tt;
        stops =
            chained_waits (omega arith) d at owned chained cut
              (ap (λ n. if ltb 0 n then 1 else 0) none_more);
      }
  round-Polls rounds d s out at owned (message_waits extended cut) again =
      none_taken sds (suc rounds) s
        (extended_waits (omega arith) d at owned extended cut (omega arith))

  -- The loop's step, at what the ring holds at the consumer index.
  entry-Polls :
      (rounds : ℕ) (s : Polling) (o : Option StatusDesc)
      → get_elem? s.ring s.consumer ≡ o
      → ((s1 : Polling) → Polls sds rounds s1 (poll sds rounds s1))
      → Polls sds (suc rounds) s (elim o [
        | none ↦ s
        | some d ↦
            let (go_on, s') = process_message sds d s in
            let rest = poll sds rounds s' in
            if host_owns (some d) then (if go_on then rest else s') else s
      ])
  entry-Polls rounds s none at again =
      none_taken sds (suc rounds) s (not_owned (omega arith) (ap host_owns at) (omega arith))
  entry-Polls rounds s (some d) at again =
      if-cases (Polls sds (suc rounds) s) (host_owns (some d))
        (λ e.
          round-Polls rounds d s (process_message sds d s) at e (process_message-Rounds sds d s)
            again)
        (λ e.
          none_taken sds (suc rounds) s
            (not_owned (omega arith) (ap host_owns at ∙ e) (omega arith)))

  pub poll-Polls : (rounds : ℕ) (s : Polling) → Polls sds rounds s (poll sds rounds s)
  unfolding poll
  poll-Polls zero s = none_taken sds 0 s (used_up refl (omega arith))
  poll-Polls (suc rounds) s =
      entry-Polls rounds s (get_elem? s.ring s.consumer) refl (λ s1. poll-Polls rounds s1)
