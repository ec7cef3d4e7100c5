-- ===== src/Lro/Tests.antt =====
-- One flow offloaded from a pool of two entries.
use hp_nx_nic.Prelude.{
  ℕ, ◌+◌, ◌≤◌, ◌<◌, ◌^◌, ◌≡◌, ◌↔◌, refl, some, none, [], ◌∷◌, true, false, replicate, arith,
}
use hp_nx_nic.Prelude.Counts.{count}
use hp_nx_nic.Prelude.Int.{pos, is_zero}
use hp_nx_nic.Prelude.Kernel.{ok}
use hp_nx_nic.Prelude.Bump.{bump, bump-IsFresh}
use hp_nx_nic.CmdRing.Ring.{Adapter, request_buffer}
use hp_nx_nic.HashTable
use hp_nx_nic.Lro.Key.{IpAddr, HostKey, cmp_ip_key}
use hp_nx_nic.Lro.Compare.{compared, cmp_ip_key-zero}
use hp_nx_nic.Lro.Flows.{IsValid, Ends, handle_lro_response-Ends}
use hp_nx_nic.Lro.Start.{Initiates, sending, initiate_lro-Initiates}
use hp_nx_nic.Lro.Setup.{Inits, init_lro-Inits}
use hp_nx_nic.Lro.Cleanup.{cleanup_lro-frees}
use hp_nx_nic.Lro.{
  Entry, LroRequest, add_flow, cleanup_all, Lro, initiate_lro, handle_lro_response, init_lro,
  cleanup_lro,
}

abbrev ip4 : ℕ → IpAddr
ip4 a = record { v6_0 = a; v6_1 = 0; v6_2 = 0; v6_3 = 0 }

abbrev key : HostKey
key = record {
  ip_version = 4;
  daddr = ip4 0x0a000001;
  saddr = ip4 0x0a000002;
  sport = 80;
  dport = 5000;
}

-- The same destination and ports from another source.
abbrev other_source : HostKey
other_source = record key { saddr = ip4 0x0a000102 }

abbrev ring : Adapter ℕ
ring = record {
  cmd_producer = 0;
  last_cmd_consumer = 0;
  max_tx_desc_count = 4;
  cmd_desc_head = 0 ∷ 0 ∷ 0 ∷ 0 ∷ [];
  cmd_buf_arr = some (replicate 4 (request_buffer 0));
  pending_cmds = record { cnt = 0; free_list = []; cmd_list = []; curr_block = none };
  crb_addr_cmd_producer = true;
  doorbell = none;
  queue_stopped = false;
  running = true;
  tx_timeout_count = 0;
  xmitfinished = 0;
  freed = [];
  unmapped = 0;
}

abbrev flow : Entry
flow = record { addr = 624; key = other_source; container = 1 }

-- The flow's entry lies behind node 600; node 500 is free.
abbrev offload : Lro ℕ
offload = record {
  ring = ring;
  mem_pool = record {
    self = 100;
    free_list = 500 ∷ [];
    max_entries = 2;
    entry_size = 104;
    allocated = pos 1;
    offset = 24;
  };
  hash_tbl = record { buckets = (flow ∷ []) ∷ []; bucket_cnt = 1 };
  memory = record { live = 500 ∷ 600 ∷ 7 ∷ []; word = λ a. 100 };
  initialized = true;
  enabled = 1;
}

offload-IsValid : IsValid offload
unfolding HashTable.find
offload-IsValid = record {
  out = 600 ∷ [];
  pool = record { counted = refl; distinct = λ a. ground arith; owned = λ a h. refl };
  table = record {
    sized = refl;
    nonempty = omega arith;
    int_sized = omega arith;
    all_unique = ((refl, tt), tt);
  };
  held = λ a. omega arith;
}

-- A descriptor that keeps of a request the context alone.
abbrev as_desc : LroRequest → ℕ
as_desc (add_flow ctxid daddr saddr dport sport rss_hash timestamp) = ctxid
as_desc (cleanup_all ctxid) = ctxid

initiate_lro-Initiates_example :
    Initiates offload key 1
      (sending as_desc none offload key 9 1 0)
      (initiate_lro as_desc none offload key 9 1 0)
initiate_lro-Initiates_example =
    initiate_lro-Initiates as_desc none offload key 9 1 0 offload-IsValid

handle_lro_response-Ends_example : Ends offload key (handle_lro_response offload key)
handle_lro_response-Ends_example = handle_lro_response-Ends offload key offload-IsValid

cleanup_lro-frees_example :
    (s' : Lro ℕ) × (cleanup_lro offload ≡ ok s')
    × (s'.initialized ≡ false)
    × ((a : ℕ)
        → count a s'.memory.live + (count a (500 ∷ []) + count a (600 ∷ []))
          ≡ count a (500 ∷ 600 ∷ 7 ∷ []))
unfolding offload-IsValid
cleanup_lro-frees_example = cleanup_lro-frees offload offload-IsValid refl (λ a. omega arith)

cmp_ip_key-zero_example :
    (is_zero (cmp_ip_key key other_source) ≡ true) ↔ (compared key ≡ compared other_source)
cmp_ip_key-zero_example = cmp_ip_key-zero key other_source

answered : (n : ℕ) → some 32 ≡ some n → (1 ≤ n) × (n < 2 ^ 26)
answered n e = ground arith

init_lro-Inits_example : Inits offload (init_lro bump (λ size. true) 100 0x040200 (some 32) offload)
init_lro-Inits_example =
    init_lro-Inits offload bump (λ size. true) 100 0x040200 (some 32) bump-IsFresh answered
