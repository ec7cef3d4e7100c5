-- ===== src/Receive/Status.antt =====
-- The status ring, in driver/unm_nic_main.c: unm_process_rcv_ring takes the card's messages.
use Prim.Native.Nat.{bit_and}
use hp_nx_nic.Prelude.{
  ℕ, zero, suc, ◌+◌, ◌-◌, Bool, true, false, ◌||◌, Option, none, some, List, [], ◌∷◌, ◌++◌, ltb,
  ◌==◌, if◌then◌else◌, set, get_elem?,
}
use hp_nx_nic.Prelude.Words.{sub32}

-- `statusDesc_t`: the fields that the loop reads, and its two words.
pub record StatusDesc : Type 0 where
  pub owner : ℕ
  pub opcode : ℕ
  pub desc_cnt : ℕ
  pub body0 : ℕ
  pub body1 : ℕ

abbrev pub status_owner_host : ℕ
status_owner_host = 1

abbrev pub status_owner_phantom : ℕ
status_owner_phantom = 2

abbrev pub msgtype_tnic_global_buffers : ℕ
msgtype_tnic_global_buffers = 0x01

abbrev pub msgtype_nic_lro_chained : ℕ
msgtype_nic_lro_chained = 0x11

abbrev pub msgtype_nic_lro_contiguous : ℕ
msgtype_nic_lro_contiguous = 0x12

-- A call that the loop makes for a message: unm_process_rcv, unm_process_lro_contiguous,
-- unm_process_lro, or the handler of the message type with the words of the message.
pub data Message : Type 0 where
  process_rcv : StatusDesc → Message
  process_lro_contiguous : StatusDesc → Message
  process_lro : StatusDesc → List StatusDesc → Message
  callback : StatusDesc → List StatusDesc → Message
  callback_word : StatusDesc → Message

-- The fields of `sds_host_ring_t`, `nx_host_sds_ring_t` and the adapter that the loop uses.
-- `host_sds_consumer` is the last value written to that register.
pub record SdsRing : Type 0 where
  pub desc_head : List StatusDesc
  pub consumer : ℕ
  pub max_rx_desc_count : ℕ
  pub msg_type_rx_desc : ℕ
  pub msg_type_sync_offload : ℕ
  pub host_sds_consumer : Option ℕ
  pub polled : ℕ

-- What the loop works on.
pub record Polling : Type 0 where
  pub ring : List StatusDesc
  pub consumer : ℕ
  pub count : ℕ
  pub calls : List Message

-- `(consumer + n) & (MaxRxDescCount - 1)`
abbrev pub status_index : ℕ → ℕ → ℕ
status_index size i = bit_and i (size - 1)

abbrev pub next_status : ℕ → ℕ → ℕ
next_status size i = status_index size (i + 1)

abbrev pub change_status : Option StatusDesc → List StatusDesc → ℕ → List StatusDesc
change_status none ring i = ring
change_status (some d) ring i = set ring i (record d { owner = status_owner_phantom })

-- `owner = STATUS_OWNER_PHANTOM`
abbrev pub release : List StatusDesc → ℕ → List StatusDesc
release ring i = change_status (get_elem? ring i) ring i

abbrev pub host_owns : Option StatusDesc → Bool
host_owns none = false
host_owns (some d) = bit_and d.owner status_owner_host == status_owner_host

abbrev pub with_desc : Option StatusDesc → List StatusDesc → List StatusDesc
with_desc none ds = ds
with_desc (some d) ds = d ∷ ds

-- The inner loops over the middle descriptors of a message: what they read, the ring and the index.
unfoldable pub take_middle : ℕ → ℕ → List StatusDesc → ℕ → List StatusDesc × List StatusDesc × ℕ
take_middle size zero ring i = ([], ring, i)
take_middle size (suc n) ring i =
    let j = next_status size i in
    let (ds, ring', last) = take_middle size n (release ring j) j in
    (with_desc (get_elem? ring j) ds, ring', last)

-- A message of one descriptor.
abbrev pub single : ℕ → Message → Polling → Polling
single size m s = record {
  ring = release s.ring s.consumer;
  consumer = next_status size s.consumer;
  count = s.count + 1;
  calls = s.calls ++ m ∷ [];
}

-- A message of several: the first, `n` in the middle, and the last, which is not read.
unfoldable pub several : ℕ → (List StatusDesc → Message) → ℕ → Polling → Polling
unfolding take_middle
several size m n s =
    let (ds, ring, i) = take_middle size n (release s.ring s.consumer) s.consumer in
    let last = next_status size i in
    record {
      ring = release ring last;
      consumer = next_status size last;
      count = s.count + 1;
      calls = s.calls ++ m ds ∷ [];
    }

-- Whether the last of the descriptors of a message is the host's.
abbrev pub is_whole : ℕ → ℕ → Polling → Bool
is_whole size cnt s = host_owns (get_elem? s.ring (status_index size (sub32 (s.consumer + cnt) 1)))

-- `count = count ? 1 : 0`
abbrev pub stop_chained : Polling → Polling
stop_chained s = record s { count = if ltb 0 s.count then 1 else 0 }

abbrev pub is_receive : SdsRing → StatusDesc → Bool
is_receive sds d =
    d.opcode == sds.msg_type_rx_desc
    || d.opcode == sds.msg_type_sync_offload
    || d.opcode == msgtype_tnic_global_buffers

-- How a round ends: `true` if the loop goes on.
unfoldable pub process_message : SdsRing → StatusDesc → Polling → Bool × Polling
unfolding several
process_message sds d s =
    let size = sds.max_rx_desc_count in
    if is_receive sds d
    then (true, single size (process_rcv d) s)
    else if d.opcode == msgtype_nic_lro_contiguous
    then (true, single size (process_lro_contiguous d) s)
    else if d.opcode == msgtype_nic_lro_chained
    then (if is_whole size d.desc_cnt s
        then (true, several size (process_lro d) (d.desc_cnt - 2) s)
        else (false, stop_chained s))
    else if ltb 1 d.desc_cnt
    then (if is_whole size d.desc_cnt s
        then (true, several size (callback d) (d.desc_cnt - 2) s)
        else (false, s))
    else (true, single size (callback_word d) s)

-- The `while (count < max)` loop, with the rounds that are left.
unfoldable pub poll : SdsRing → ℕ → Polling → Polling
unfolding process_message
poll sds zero s = s
poll sds (suc rounds) s = elim (get_elem? s.ring s.consumer) [
  | none ↦ s
  | some d ↦
      let (go_on, s') = process_message sds d s in
      let rest = poll sds rounds s' in
      if host_owns (some d) then (if go_on then rest else s') else s
]

-- "update the consumer index in phantom"
abbrev pub finish_poll : SdsRing → Polling → SdsRing
finish_poll sds s =
    if ltb 0 s.count
    then (record sds {
      desc_head = s.ring;
      consumer = s.consumer;
      host_sds_consumer = some s.consumer;
      polled = sds.polled + 1;
    })
    else (record sds { desc_head = s.ring; polled = sds.polled + 1 })

-- unm_process_rcv_ring: its result, the calls that it makes for messages, and the ring. The call
-- of nx_post_freed_rxbufs behind the loop is about other state.
unfoldable pub process_rcv_ring : SdsRing → ℕ → ℕ × List Message × SdsRing
unfolding poll
process_rcv_ring sds max =
    let s =
      poll sds max
        (record { ring = sds.desc_head; consumer = sds.consumer; count = 0; calls = [] }) in
    (s.count, s.calls, finish_poll sds s)
