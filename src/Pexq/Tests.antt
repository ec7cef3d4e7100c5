-- ===== src/Pexq/Tests.antt =====
-- Messages across the end of the ring.
use hp_nx_nic.Prelude.{ℕ, List, [], ◌∷◌, arith}
use hp_nx_nic.Pexq.{Pexq, user, update_pending_doorbell, schedule_pexqdb}
use hp_nx_nic.Pexq.Counts.{
  IsValid, IsPending, RingsFor, schedule_pexqdb-IsValid, schedule_pexqdb-RingsFor,
}

abbrev queue : Pexq ℕ
queue = record {
  qbuf_paddr = 0x40000;
  qbuf = user 1 ∷ user 2 ∷ [];
  qbuf_pending_compl_idx = 1012;
  qbuf_new_idx = 1022;
  qbuf_free_cnt = 1014;
  qbuf_pending_cnt = 10;
}

queue-IsValid : IsValid queue
queue-IsValid = (omega arith, omega arith, omega arith)

queue-IsPending : IsPending queue 1016 4
queue-IsPending = (omega arith, omega arith)

abbrev messages : List ℕ
messages = 7 ∷ 8 ∷ 9 ∷ []

schedule_pexqdb-IsValid_example : IsValid (schedule_pexqdb 1016 queue messages).0
schedule_pexqdb-IsValid_example =
    schedule_pexqdb-IsValid 1016 4 queue messages queue-IsValid queue-IsPending

schedule_pexqdb-RingsFor_example :
    RingsFor (update_pending_doorbell 1016 queue) 3 (schedule_pexqdb 1016 queue messages)
schedule_pexqdb-RingsFor_example =
    schedule_pexqdb-RingsFor 1016 4 queue messages queue-IsValid queue-IsPending
