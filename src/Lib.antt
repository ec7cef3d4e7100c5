-- ===== src/Lib.antt =====
-- Verification of the NetXen network driver, hp-nx_nic.
--
-- The driver sends the card descriptors through a command ring in shared memory. Requests that find
-- the ring full wait in a queue of blocks, from which polls of the ring refill it; other polls take
-- the entries back that the card has consumed. Large receive offload keeps a table of flows, whose
-- entries come from a memory pool, and tells the card of each flow by a request on the command ring.
--
-- - Prelude passes the library's names on, and has the helpers that the components share: Tests and
--   Lists over the native numbers, Int (the C `int`), Words (32-bit sums), Bits, Counts (lists as
--   multisets), Kernel (the kernel heap, the error numbers, and how a call ends), Bump (a concrete
--   kmalloc for the tests).
-- - CmdRing: Pending is the waiting queue and Ring the ring of driver/unm_nic_main.c
--   (unm_init_pending_cmd_desc to nx_queue_pend_cmd_desc_list, nx_nic_send_cmd_descs,
--   unm_proc_pending_cmd_desc, unm_process_cmd_ring), Window the ring's indices (get_next_index of
--   include/nic_cmn.h) and the part of a ring between two of them. Pending/Fifo, Ring/Fifo,
--   Ring/Drain and Ring/Reap have the theorems of the calls; History is any sequence of calls.
-- - MemPool is driver/nx_mem_pool.c. MemPool/Lifetime is about nx_mem_pool_create and
--   nx_mem_pool_destroy, MemPool/Nodes about nx_mem_pool_alloc and nx_mem_pool_free.
-- - HashTable is driver/nx_hash_table.c for any type of keys. HashTable/Chain and HashTable/Removal
--   are about one bucket, HashTable/Lookup and HashTable/Delete about the table.
-- - Lro is driver/unm_nic_lro.c: unm_init_lro (Lro/Setup), nx_initiate_lro (Lro/Start),
--   nx_handle_lro_response (Lro/Flows), unm_cleanup_lro (Lro/Cleanup) and nx_lro_set_state (Lro/Switch). Lro/Key
--   has the keys and nx_cmp_ip_key, Lro/Compare what the comparison tells apart, Lro/Balance the
--   agreement of the flow table and the pool.
-- - Card is the register access of the driver (NXRD32, NXWR32, nx_os_nic_reg_read_w1) and
--   Card/Semaphore the wait for a hardware semaphore that rom_lock and api_lock share, and what a row
--   of reads of one register gives.
-- - Crb has the addresses of registers, of driver/unm_nic_hw.c: unm_nic_pci_get_crb_addr_2M with the
--   tables crb_128M_2M_map (Crb/Table, Crb/Map, Crb/Alias) and crb_hub_agt (Crb/Agents and Crb/Hubs,
--   with the numbers of include/unm_inc.h), the access to a register of a card with 2 MB
--   (unm_nic_hw_read_ioctl_2M, unm_nic_hw_read_wx_2M and their writes; Crb/Indirect), and the window
--   of a card with 128 MB (unm_nic_pci_change_crbwindow_128M, unm_nic_pci_set_crbwindow; Crb/Window).
-- - Agent is the access to the card's memory of the same file: unm_nic_pci_mem_read_2M (Agent/Reading
--   for the accesses, Agent/Assembly for the value, Agent/Contents for the function),
--   unm_nic_pci_mem_write_2M (Agent/Write has the definitions, Agent/Merging and Agent/Writing are
--   about them), and Agent/RoundTrip about both; Agent/Window128 is
--   unm_nic_pci_mem_read_128M. Agent/Fields has the arithmetic of bit fields.
-- - Pexq is the doorbell queue of driver/nx_pexq.c and driver/nx_pexq.h: nx_schedule_pexqdb and
--   pexq_update_pending_doorbell (Pexq/Doorbells and Pexq/Places for the
--   loop, Pexq/Counts for the queue), and the
--   command word of a doorbell (Pexq/Command).
-- - Hal is the command interface of driver/nxhal.c (api_lock, poll_rsp, issue_cmd; Hal/Command) and
--   its context slots (find_open_rx_id, nx_fw_cmd_create_rx_ctx_alloc and _free; Hal/Contexts).
-- - Rom is driver/unm_nic_init.c: rom_lock, wait_rom_done, do_rom_fast_read and rom_fast_read
--   (Rom/FastRead), nx_phantom_init, compare_fw_version and nx_fw_hw_version_check (Rom/Version).
-- - Xmit is the transmit function of driver/unm_nic_main.c, unm_nic_xmit_frame (Xmit/Frame), with
--   nx_nic_check_tso (Xmit/Packet), the fragment loop and netxen_clean_tx_dma_mapping (Xmit/Fill) and
--   nx_nic_tso_copy_headers (Xmit/Headers), on the ring of CmdRing. Xmit/Entries, Xmit/Gather,
--   Xmit/Complete and Xmit/Post are about the descriptors, Xmit/Outcome and Xmit/Transmits about the
--   whole call, Xmit/Balance about the ring and the lock, Xmit/Bytes about the headers; Xmit/Release
--   is nx_free_tx_resources.
-- - Receive is the receive side of driver/unm_nic_main.c: Receive/Buffers has nx_alloc_rx_skb,
--   nx_post_rx_descriptors, nx_post_freed_rxbufs and unm_post_rx_buffers (Receive/Prepare,
--   Receive/Post, Receive/Doorbell, Receive/Posted and Receive/Freed are about them), Receive/Packet
--   process_rxbuffer and the part of unm_process_rcv about the buffer (Receive/Arrival), Receive/Status
--   unm_process_rcv_ring (Receive/Spans, Receive/Rounds and
--   Receive/Polls for the loop, Receive/Ring for the whole call).
--
-- How the state corresponds: the linked lists of the kernel are sequences of nodes, named by their
-- addresses where the code follows pointers; linking a node that is linked already is the outcome
-- `relinked`, BUG() is `bug`, and an index outside an array is `fault`. The kernel heap is the list
-- of its live blocks and the words in them; kmalloc is a parameter, which is only known not to
-- return a live block, and vmalloc one that answers by the size it is asked for. The fields of the
-- adapter are those that these calls read or write. In CmdRing a descriptor of the ring is of any
-- type; Xmit has the one of a packet. The word sizes of 64-bit machines are used where the code has
-- sizeof, with a spin lock of 4 bytes. The card is any function from the trace of register accesses
-- to the value of the next read, so that a theorem holds for all its answers.
--
-- Bounds and fuel: ring indices and counters are 32-bit numbers with the wrap written out where the
-- code adds or subtracts. The loop of unm_proc_pending_cmd_desc runs on fuel, two more rounds than
-- there are full blocks, which is enough since each round takes a block; the loop of
-- unm_process_cmd_ring makes at most MAX_STATUS_HANDLE rounds, as in the code.
--
-- The waits for semaphores, responses and the flash make the code's number of retries; rom_fast_read
-- is modelled for any number of locking loops.
--
-- A kernel page has 4096 bytes, and a message 64, so that the ring of the doorbell queue has 1024
-- places; its loop takes a free place in each round, on which it is recursive. The wait of
-- unm_nic_pci_change_crbwindow_128M has no bound in the code; the model counts its reads, and its
-- theorems are about a card that shows a window within that count, and an adapter that notes the
-- window that was written to the card last. The waits for the memory agent
-- make the code's 1000 reads. The memory itself is any function from addresses of words that the
-- agent shows as long as it only reads; Agent/RoundTrip also takes it that a write leaves the word of
-- the agent's data registers at its address. C leaves a shift of a 64-bit word by 64 undefined: the result
-- is an argument, on which no theorem depends. The direct access to memory that is not behind the
-- agent (unm_nic_pci_mem_read_direct, unm_nic_pci_mem_write_direct) is an argument.
--
-- The kernel's __pskb_pull_tail and DMA mappings are arguments of the transmit function, whose model
-- is the one for Linux with kernels behind 2.6.26, without the copies for VMware. Header bytes in a
-- ring entry stand for the entry. Header bytes that run over the second header entry are noted beside
-- the ring, which is as without them. The linear part of a packet is taken to hold its headers, and
-- cmd_buf_arr, where it is allocated, to have the ring's size.
--
-- A receive buffer is its index in rx_buf_arr. The kernel's answers to the allocations are functions
-- of the number of the call, so that any may fail. The handlers that unm_process_rcv_ring calls are
-- recorded with what they are given; the words of a message are taken to fit its 7 places.
--
-- Not modelled: spin locks but for the calls for tx_lock in Xmit, prints and most statistics, since
-- each function runs under its lock or on the one
-- poll; the test of nx_nic_send_cmd_descs for a missing network device, since the model's argument is
-- the adapter itself; nx_try_initiate_lro and nx_lro_delete_ctx_lro; the
-- register access of cards with 128 MB beyond the choice of the window, and their
-- unm_nic_pci_mem_write_128M; the retries of
-- pexq_ring_doorbell and the set-up of the doorbell queue; the rest of the driver, of which the
-- message handlers of the receive path, the firmware files and the commands of the host abstraction layer are
-- the largest.
pub mod Prelude
pub mod CmdRing
pub mod MemPool
pub mod HashTable
pub mod Lro
pub mod Card
pub mod Crb
pub mod Agent
pub mod Pexq
pub mod Hal
pub mod Rom
pub mod Xmit
pub mod Receive
