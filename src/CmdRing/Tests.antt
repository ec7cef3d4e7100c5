-- ===== src/CmdRing/Tests.antt =====
-- A ring of four entries at work.
use hp_nx_nic.Prelude.{ℕ, Bool, ◌≡◌, refl, none, some, [], ◌∷◌, true, replicate, arith}
use hp_nx_nic.Prelude.Int.{pos}
use hp_nx_nic.CmdRing.Pending.{Pending, queue_desc_list}
use hp_nx_nic.CmdRing.Pending.Fifo
use hp_nx_nic.CmdRing.Pending.Fifo.{Queues, Dequeues, queue_desc_list-Queued, dequeue-Dequeues}
use hp_nx_nic.CmdRing.Window.{window}
use hp_nx_nic.CmdRing.Ring.{Adapter, request_buffer, send_cmd_descs, proc_pending, process_cmd_ring}
use hp_nx_nic.CmdRing.Ring.Fifo.{IsValid, view, Sends, send_cmd_descs-Sends}
use hp_nx_nic.CmdRing.Ring.Drain.{proc_pending-view}
use hp_nx_nic.CmdRing.Ring.Reap.{Processes, process_cmd_ring-Processes}
use hp_nx_nic.CmdRing.History.{Run, start, request, poll, Ordered, Run-Ordered}

-- One request waits in the current block.
abbrev waiting : Pending ℕ
waiting = record {
  cnt = 2;
  free_list = [];
  cmd_list = [];
  curr_block = some (record { addr = 4096; cmd = 50 ∷ 51 ∷ [] });
}

waiting-IsValid : Fifo.IsValid waiting
waiting-IsValid = record { full = tt; room = omega arith; counted = refl; small = omega arith }

-- The card has consumed entry 2 next; entry 3 and the pending requests follow.
abbrev ring4 : Adapter ℕ
ring4 = record {
  cmd_producer = 3;
  last_cmd_consumer = 2;
  max_tx_desc_count = 4;
  cmd_desc_head = 10 ∷ 11 ∷ 12 ∷ 13 ∷ [];
  cmd_buf_arr = some (replicate 4 (request_buffer 0));
  pending_cmds = waiting;
  crb_addr_cmd_producer = true;
  doorbell = none;
  queue_stopped = true;
  running = true;
  tx_timeout_count = 3;
  xmitfinished = 0;
  freed = [];
  unmapped = 0;
}

ring4-IsValid : IsValid ring4
ring4-IsValid = record {
  consumer_in = omega arith;
  producer_in = omega arith;
  least = omega arith;
  small = omega arith;
  sized = refl;
  pending = waiting-IsValid;
}

send_cmd_descs-Sends_example : Sends none ring4 (60 ∷ []) (send_cmd_descs none ring4 (60 ∷ []))
send_cmd_descs-Sends_example = send_cmd_descs-Sends none ring4 (60 ∷ []) ring4-IsValid (omega arith)

proc_pending-view_example :
    (a' : Adapter ℕ) × (proc_pending ring4 ≡ some a') × IsValid a' × (view a' ≡ view ring4)
proc_pending-view_example = proc_pending-view ring4 ring4-IsValid

process_cmd_ring-Processes_example : Processes ring4 1 3 (process_cmd_ring ring4 3 3)
process_cmd_ring-Processes_example =
    process_cmd_ring-Processes ring4 1 3 3 ring4-IsValid (omega arith) refl

-- A request that has to wait.
abbrev after_request : Adapter ℕ
after_request = (send_cmd_descs none ring4 (60 ∷ [])).1

accepted : send_cmd_descs none ring4 (60 ∷ []) ≡ (pos 0, after_request)
unfolding send_cmd_descs queue_desc_list
accepted = refl

-- The request waits, the card takes the entry that is in the ring, and the driver takes it back.
abbrev after_poll : Bool × Adapter ℕ
after_poll = process_cmd_ring after_request 3 3

run : Run ring4 after_poll.1 (60 ∷ []) (window after_request.cmd_desc_head 4 2 1)
unfolding send_cmd_descs queue_desc_list
run =
    poll 1 3 3 after_poll.0 (request none (60 ∷ []) start (omega arith) accepted) (omega arith) refl
      refl

Run-Ordered_example :
    Ordered ring4 after_poll.1 (60 ∷ []) (window after_request.cmd_desc_head 4 2 1)
Run-Ordered_example = Run-Ordered ring4 ring4-IsValid run
