-- ===== src/CmdRing/History.antt =====
-- Any history of the calls of the command ring: requests, polls that drain the pending queue, and
-- polls that take finished entries back.
use mathlib.Core.List.{append-nil, append_assoc}
use mathlib.Core.Path.{subst}
use Prim.Native.Nat.{min}
use hp_nx_nic.Prelude.{
  ℕ, ◌+◌, ◌≤◌, ◌<◌, ◌^◌, ◌≡◌, ◌≢◌, refl, sym, ap, ◌∙◌, inl, inr, Bool, Option, some, List, [], ◌++◌,
  map, length,
}
use hp_nx_nic.Prelude.Int.{ℤ, pos}
use hp_nx_nic.CmdRing.Window.{wrap, window}
use hp_nx_nic.CmdRing.Ring.{
  Adapter, max_status_handle, send_cmd_descs, proc_pending, process_cmd_ring,
}
use hp_nx_nic.CmdRing.Ring.Fifo.{IsValid, in_flight, view, Sends, send_cmd_descs-Sends, append-view}
use hp_nx_nic.CmdRing.Ring.Drain.{proc_pending-view}
use hp_nx_nic.CmdRing.Ring.Reap.{Processes, process_cmd_ring-Processes}

-- `Run a₀ a s c`: from `a₀` the calls led to `a`; `s` are the descriptors of the accepted
-- requests, and `c` the entries that were taken back, each in order of time.
pub data Run {A : Type 0} (a₀ : Adapter A) : Adapter A → List A → List (Option A) → Type 0 where
  start : Run a₀ a₀ [] []
  request :
      {a a' : Adapter A} {s : List A} {c : List (Option A)} (alloc : Option ℕ) (ds : List A)
      → Run a₀ a s c
      → a.pending_cmds.cnt + length ds < 2 ^ 32
      → send_cmd_descs alloc a ds ≡ (pos 0, a')
      → Run a₀ a' (s ++ ds) c
  refused :
      {a a' : Adapter A} {s : List A} {c : List (Option A)} (alloc : Option ℕ) (ds : List A)
      (rv : ℤ)
      → Run a₀ a s c
      → a.pending_cmds.cnt + length ds < 2 ^ 32
      → rv ≢ pos 0
      → send_cmd_descs alloc a ds ≡ (rv, a')
      → Run a₀ a' s c
  drain :
      {a a' : Adapter A} {s : List A} {c : List (Option A)}
      → Run a₀ a s c
      → proc_pending a ≡ some a'
      → Run a₀ a' s c
  poll :
      {a a' : Adapter A} {s : List A} {c : List (Option A)} (k consumer later : ℕ) (done : Bool)
      → Run a₀ a s c
      → k ≤ in_flight a
      → consumer ≡ wrap a.max_tx_desc_count (a.last_cmd_consumer + k)
      → process_cmd_ring a consumer later ≡ (done, a')
      → Run a₀ a' s (
          c
          ++ window a.cmd_desc_head a.max_tx_desc_count a.last_cmd_consumer
              (min k max_status_handle))

-- What a history keeps: every descriptor is taken back, still in the ring or waiting, in the order
-- of the requests.
pub record Ordered {A : Type 0} (a₀ a : Adapter A) (s : List A) (c : List (Option A)) : Type 0 where
  pub valid : IsValid a
  pub order : c ++ view a ≡ view a₀ ++ map some s

module _ {A : Type 0} (a₀ : Adapter A) where
  request-Ordered :
      (a a' : Adapter A) (s ds : List A) (c : List (Option A)) (alloc : Option ℕ) (rv : ℤ)
      → Ordered a₀ a s c
      → rv ≡ pos 0
      → Sends alloc a ds (rv, a')
      → Ordered a₀ a' (s ++ ds) c
  request-Ordered a a' s ds c alloc rv o e (inl (_, v, w)) = record {
    valid = v;
    order =
        ap (λ l. c ++ l) w
        ∙ (sym (append_assoc c (view a) (map some ds))
            ∙ (ap (λ l. l ++ map some ds) o.order ∙ sym (append-view (view a₀) s ds)));
  }
  request-Ordered a a' s ds c alloc rv o e (inr (ne, _, _)) = absurd (ne e)

  refused-Ordered :
      (a a' : Adapter A) (s ds : List A) (c : List (Option A)) (alloc : Option ℕ) (rv : ℤ)
      → Ordered a₀ a s c
      → rv ≢ pos 0
      → Sends alloc a ds (rv, a')
      → Ordered a₀ a' s c
  refused-Ordered a a' s ds c alloc rv o ne (inl (e, _, _)) = absurd (ne e)
  refused-Ordered a a' s ds c alloc rv o ne (inr (_, same, _)) =
      subst (λ b. Ordered a₀ b s c) (sym same) o

  drain-Ordered :
      (a a' : Adapter A) (s : List A) (c : List (Option A))
      → Ordered a₀ a s c
      → proc_pending a ≡ some a'
      → Ordered a₀ a' s c
  drain-Ordered a a' s c o e =
      let (b, eb, v, w) = proc_pending-view a o.valid in
      let same : b ≡ a' = cc in
      subst (λ x. Ordered a₀ x s c) same
        (record { valid = v; order = ap (λ l. c ++ l) w ∙ o.order })

  poll-Ordered :
      (a a' : Adapter A) (s : List A) (c : List (Option A)) (k later : ℕ) (done : Bool)
      → Ordered a₀ a s c
      → Processes a k later (done, a')
      → Ordered a₀ a' s (
          c
          ++ window a.cmd_desc_head a.max_tx_desc_count a.last_cmd_consumer
              (min k max_status_handle))
  poll-Ordered a a' s c k later done o (v, w, _) = record {
    valid = v;
    order =
        append_assoc c
          (window a.cmd_desc_head a.max_tx_desc_count a.last_cmd_consumer (min k max_status_handle))
          (view a')
        ∙ (ap (λ l. c ++ l) (sym w) ∙ o.order);
  }

  -- Over any history of calls from a valid adapter, in which no request is sent that would count 2
  -- ^ 32 waiting descriptors or more, and the card's index is never ahead of the ring: the entries
  -- taken back, then the ring, then the waiting queue, are what the ring and queue held at first,
  -- then the descriptors of the accepted requests, each once and in the order of the requests; and
  -- the adapter stays valid.
  pub Run-Ordered :
      {a : Adapter A} {s : List A} {c : List (Option A)}
      → IsValid a₀
      → Run a₀ a s c
      → Ordered a₀ a s c
  Run-Ordered v start = record { valid = v; order = sym (append-nil (view a₀)) }
  Run-Ordered v (request {a = b} {a' = b'} {s = s} {c = c} alloc ds r small e) =
      request-Ordered b b' s ds c alloc (pos 0) (Run-Ordered v r) refl
        (subst (Sends alloc b ds) e (send_cmd_descs-Sends alloc b ds (Run-Ordered v r).valid small))
  Run-Ordered v (refused {a = b} {a' = b'} {s = s} {c = c} alloc ds rv r small ne e) =
      refused-Ordered b b' s ds c alloc rv (Run-Ordered v r) ne
        (subst (Sends alloc b ds) e (send_cmd_descs-Sends alloc b ds (Run-Ordered v r).valid small))
  Run-Ordered v (drain {a = b} {a' = b'} {s = s} {c = c} r e) =
      drain-Ordered b b' s c (Run-Ordered v r) e
  Run-Ordered v (poll {a = b} {a' = b'} {s = s} {c = c} k consumer later done r hk hc e) =
      poll-Ordered b b' s c k later done (Run-Ordered v r) (
        subst (Processes b k later) e
          (process_cmd_ring-Processes b k consumer later (Run-Ordered v r).valid hk hc))
