-- ===== src/CmdRing/Ring/Drain.antt =====
-- unm_proc_pending_cmd_desc ends, and moves descriptors from the pending queue to the ring in
-- order.
use mathlib.Core.Path.{subst, ap₂}
use hp_nx_nic.Prelude.{
  ℕ, zero, suc, ◌+◌, ◌-◌, ◌<◌, ◌≡◌, refl, sym, ap, ◌∙◌, inl, inr, Option, none, some, ◌++◌, map,
  arith, ◌==◌, length, Bool-cases, ==_iff,
}
use hp_nx_nic.CmdRing.Pending.{Block, Pending, queued, dequeue, free_block}
use hp_nx_nic.CmdRing.Pending.Fifo
use hp_nx_nic.CmdRing.Window.{window}
use hp_nx_nic.CmdRing.Ring.{
  Adapter, pegnet_request, put_descs, free_length, proc_block, proc_loop, finish_pending,
  proc_pending,
}
use hp_nx_nic.CmdRing.Ring.Fifo.{
  IsValid, At, in_flight, view, view_at, IsValid-At, put_descs-At, published-view, unmoved-view,
  append-view,
}

-- The loop ended, with the same descriptors to come, `m` of them in the ring.
abbrev Drained : {A : Type 0} → ℕ → Adapter A → Option (ℕ × Adapter A) → Type 0
Drained {A} n a r =
    (m : ℕ) × (out : ℕ × Adapter A) × (r ≡ some out)
    × At m out.0 out.1
    × (view_at m out.1 ≡ view_at n a)
    × (out.1.cmd_producer ≡ a.cmd_producer)

abbrev DrainsFrom : Type 0 → ℕ → Type 0
DrainsFrom A fuel =
    (n p len : ℕ) (a : Adapter A)
    → At n p a
    → n + len < a.max_tx_desc_count
    → Fifo.blocks a.pending_cmds < fuel
    → Drained n a (proc_loop fuel a p len)

module _ {A : Type 0} where
  proc_block-Drained :
      (fuel : ℕ)
      → DrainsFrom A fuel
      → (n p len : ℕ) (a : Adapter A) (dq : Option (Block A) × Pending A) → At n p a
      → n + len < a.max_tx_desc_count
      → Fifo.blocks a.pending_cmds < suc fuel
      → Fifo.Dequeues a.pending_cmds len dq
      → Drained n a (proc_block (proc_loop fuel) a p len dq)
  unfolding proc_block
  proc_block-Drained fuel ih n p len a (none, q) t h hm (same, why) = (
    n,
    (p, record a { pending_cmds = q }),
    refl,
    ground arith,
    ap (λ r. view_at n (record a { pending_cmds = r })) same,
    refl,
  )
  proc_block-Drained fuel ih n p len a (some b, q) t h hm (v, order, fits, fewer) =
      let a1 = record a { pending_cmds = q } in
      let t1 : At n p a1 = ground arith in
      let out1 = put_descs pegnet_request a1 p b.cmd in
      let (t2, w, kept, max_kept, prod_kept) =
        put_descs-At pegnet_request n p a1 b.cmd t1 (omega arith) in
      let (v3, q3, b3) = Fifo.free_block-kept out1.1.pending_cmds b t2.pending in
      let a3 = record (out1.1) { pending_cmds = free_block out1.1.pending_cmds b } in
      let t3 : At (n + length b.cmd) out1.0 a3 = record {
        index = t2.index;
        room = t2.room;
        consumer_in = t2.consumer_in;
        least = t2.least;
        small = t2.small;
        sized = t2.sized;
        pending = v3;
      } in
      let (m, out, e, tm, vm, pm) =
        ih (n + length b.cmd) out1.0 (len - length b.cmd) a3 t3 (omega arith)
          (omega (arith, ap Fifo.blocks kept)) in
      (
        m,
        out,
        e,
        tm,
        vm
            ∙ (ap₂ (λ l r. l ++ map some r) w (q3 ∙ ap queued kept)
                ∙ (sym (
                      append-view (window a.cmd_desc_head a.max_tx_desc_count a.last_cmd_consumer n)
                        b.cmd (queued q))
                    ∙ ap
                        (λ r.
                          window a.cmd_desc_head a.max_tx_desc_count a.last_cmd_consumer n
                          ++ map some r)
                        (sym order))),
        pm ∙ prod_kept,
      )

  proc_loop-Drained : (fuel : ℕ) → DrainsFrom A fuel
  unfolding proc_loop
  proc_loop-Drained zero n p len a t h hm = absurd (omega arith)
  proc_loop-Drained (suc fuel) n p len a t h hm = elim (Bool-cases (len == 0)) [
    | inl e ↦ rw e (n, (p, a), refl, t, refl, refl)
    | inr e ↦ rw e (
        proc_block-Drained fuel (proc_loop-Drained fuel) n p len a (dequeue a.pending_cmds len) t h
          hm (Fifo.dequeue-Dequeues a.pending_cmds len t.pending))
  ]

  finish_pending-view :
      (a : Adapter A) (m : ℕ) (out : ℕ × Adapter A)
      → At m out.0 out.1
      → out.1.cmd_producer ≡ a.cmd_producer
      → IsValid (finish_pending a out) × (view (finish_pending a out) ≡ view_at m out.1)
  unfolding finish_pending
  finish_pending-view a m (p, a') t kept = elim (Bool-cases (a.cmd_producer == p)) [
    | inl e ↦ rw e (
        unmoved-view m a'
          (subst (λ k. At m k a') (sym ((==_iff a.cmd_producer p).0 e) ∙ sym kept) t))
    | inr e ↦ rw e (published-view m p a' t)
  ]

  -- On a valid adapter unm_proc_pending_cmd_desc returns within its fuel and leaves a valid
  -- adapter with the same sequence of descriptors for the card to consume: those that move from
  -- the queue to the ring keep their order.
  pub proc_pending-view :
      (a : Adapter A)
      → IsValid a
      → (a' : Adapter A) × (proc_pending a ≡ some a') × IsValid a' × (view a' ≡ view a)
  unfolding proc_pending free_length
  proc_pending-view a v =
      let (m, out, e, t, same, kept) =
        proc_loop-Drained (length a.pending_cmds.cmd_list + 2) (in_flight a) a.cmd_producer
          (free_length a) a (IsValid-At a v) (ground arith) (ground arith) in
      let (v', shown) = finish_pending-view a m out t kept in
      (finish_pending a out, rw e, v', shown ∙ same)
