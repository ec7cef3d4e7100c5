-- ===== src/Pexq.antt =====
-- The doorbell queue of driver/nx_pexq.c and driver/nx_pexq.h: messages for the card are put in a
-- ring in host memory, and doorbells tell the card where they are.
mod Doorbells
mod Places
mod Counts
mod Command
mod Tests
use Prim.Native.Nat.{bit_or, bit_and}
use hp_nx_nic.Prelude.{
  ℕ, zero, suc, ◌+◌, ◌-◌, ◌*◌, ◌/◌, ◌%◌, ◌^◌, List, [], ◌∷◌, ◌++◌, Bool, true, false, ◌&&◌, ◌||◌,
  Option, none, some, set, length, ltb, leb, ◌==◌, if◌then◌else◌,
}

-- NX_PEXQ_DBELL_BUF_SIZE with pages of 4096 bytes, and the messages of 64 bytes in it.
abbrev pub dbell_buf_order : ℕ
dbell_buf_order = 4

abbrev pub dbell_buf_size : ℕ
dbell_buf_size = 4096 * 2 ^ dbell_buf_order

abbrev pub dbell_buf_qmsgs : ℕ
dbell_buf_qmsgs = dbell_buf_size / 64

abbrev pub dbell_incr_idx : ℕ → ℕ → ℕ
dbell_incr_idx x y = (x + y) % dbell_buf_qmsgs

abbrev pub dbell_get_offset : ℕ → ℕ
dbell_get_offset idx = idx * 64

abbrev pub dbell_max_pending : ℕ
dbell_max_pending = dbell_buf_qmsgs / 4

abbrev pub dbell_compl_thres : ℕ
dbell_compl_thres = dbell_max_pending / 8

abbrev pub max_pexq_dbell : ℕ
max_pexq_dbell = 4

-- A message: one of the caller's, or the request to update the completion index, of a place.
pub data Msg {ℓ} (M : Type ℓ) : Type ℓ where
  user : M → Msg M
  dma_sync : ℕ → Msg M

-- The fields of nx_pexq_dbell_t, the indices and counts as 16-bit words; the signed ones in two's
-- complement.
pub record Pexq {ℓ} (M : Type ℓ) : Type ℓ where
  pub qbuf_paddr : ℕ
  pub qbuf : List (Msg M)
  pub qbuf_pending_compl_idx : ℕ
  pub qbuf_new_idx : ℕ
  pub qbuf_free_cnt : ℕ
  pub qbuf_pending_cnt : ℕ

-- A sign bit of 16 bits.
abbrev pub is_neg16 : ℕ → Bool
is_neg16 n = leb (2 ^ 15) n

-- A doorbell: where its messages start, and their number.
pub record Dbell : Type 0 where
  pub paddr : ℕ
  pub num_msgs : ℕ

module _ {ℓ} {M : Type ℓ} where
  -- pexq_update_pending_doorbell, with the completion index that the card wrote.
  unfoldable pub update_pending_doorbell : ℕ → Pexq M → Pexq M
  update_pending_doorbell compl_in pexq =
      let in16 = compl_in % 2 ^ 16 in
      let idx = pexq.qbuf_pending_compl_idx in
      let diff = (in16 + 2 ^ 16 - idx) % 2 ^ 16 in
      let cnt = if is_neg16 in16 || ltb in16 idx then (diff + dbell_buf_qmsgs) % 2 ^ 16 else diff in
      if (if is_neg16 in16 then false else in16 == idx) then pexq else record pexq {
        qbuf_pending_compl_idx = in16;
        qbuf_pending_cnt = (pexq.qbuf_pending_cnt + 2 ^ 16 - cnt) % 2 ^ 16;
        qbuf_free_cnt = (pexq.qbuf_free_cnt + cnt) % 2 ^ 16;
      }

-- The variables of the loop of nx_schedule_pexqdb. Of dbell_log, the entries that are complete, the
-- latest first, and the address in the open one; the buffer itself is written by the loop.
pub record Locals {ℓ} (M : Type ℓ) : Type ℓ where
  pub msg_idx : ℕ
  pub free : ℕ
  pub pending : ℕ
  pub num_dbell_qmsgs : ℕ
  pub open_paddr : ℕ
  pub dbell_log : List Dbell
  pub slots : List (Msg M)

-- The loop goes on, or has jumped to the label `failure` with the buffer as it is.
pub data Filling {ℓ} (M : Type ℓ) : Type ℓ where
  filling : Locals M → Filling M
  failure : List (Msg M) → Filling M

module _ {ℓ} {M : Type ℓ} where
  abbrev pub logged : Locals M → Dbell
  logged l = record { paddr = l.open_paddr; num_msgs = l.num_dbell_qmsgs }

  -- The part of the loop's body behind the message: the counts, and a doorbell at the end of the
  -- ring or after 255 messages. The address of the ring is the first argument.
  unfoldable pub advance : ℕ → Locals M → Filling M
  advance qbuf_paddr l =
      let new_msg_idx = dbell_incr_idx l.msg_idx 1 in
      let l1 = record l {
        pending = (l.pending + 1) % 2 ^ 16;
        num_dbell_qmsgs = l.num_dbell_qmsgs + 1;
      } in
      if ltb new_msg_idx l.msg_idx || l1.num_dbell_qmsgs == 255
      then if leb dbell_max_pending l1.pending
        then failure l1.slots
        else if length l1.dbell_log + 1 == max_pexq_dbell
        then failure l1.slots
        else filling (record l1 {
          msg_idx = new_msg_idx;
          num_dbell_qmsgs = 0;
          open_paddr = qbuf_paddr + dbell_get_offset new_msg_idx;
          dbell_log = logged l1 ∷ l1.dbell_log;
        })
      else filling (record l1 { msg_idx = new_msg_idx })

  -- The loop of nx_schedule_pexqdb over the caller's messages, with the free count, of which each
  -- round takes one. At a multiple of the threshold the round has a message of its own.
  unfoldable pub fill : ℕ → ℕ → List M → Filling M → Filling M
  unfolding advance
  fill qbuf_paddr free ms (failure slots) = failure slots
  fill qbuf_paddr free [] (filling l) = filling l
  fill qbuf_paddr zero (m ∷ ms) (filling l) = failure l.slots
  fill qbuf_paddr (suc free) (m ∷ ms) (filling l) =
      let sync = free % dbell_compl_thres == 0 in
      let msg = if sync then dma_sync l.msg_idx else user m in
      fill qbuf_paddr free (if sync then m ∷ ms else ms)
        (advance qbuf_paddr (record l { free = free; slots = set l.slots l.msg_idx msg }))

  -- The last doorbell, for the messages since the one before.
  unfoldable pub last_doorbell : Filling M → Filling M
  last_doorbell (failure slots) = failure slots
  last_doorbell (filling l) =
      if l.num_dbell_qmsgs == 0
      then filling l
      else if leb dbell_max_pending l.pending
      then failure l.slots
      else filling (record l { dbell_log = logged l ∷ l.dbell_log })

  -- qbuf_free_cnt, an I16, as the U32 of the loop.
  abbrev pub free_u32 : Pexq M → ℕ
  free_u32 pexq =
      if is_neg16 pexq.qbuf_free_cnt
      then pexq.qbuf_free_cnt + 2 ^ 32 - 2 ^ 16
      else pexq.qbuf_free_cnt

  abbrev pub locals_of : Pexq M → Locals M
  locals_of pexq = record {
    msg_idx = pexq.qbuf_new_idx;
    free = free_u32 pexq;
    pending = pexq.qbuf_pending_cnt;
    num_dbell_qmsgs = 0;
    open_paddr = pexq.qbuf_paddr + dbell_get_offset pexq.qbuf_new_idx;
    dbell_log = [];
    slots = pexq.qbuf;
  }

  unfoldable pub committed : Pexq M → Filling M → Pexq M × Option (List Dbell)
  committed pexq (failure slots) = (record pexq { qbuf = slots }, none)
  committed pexq (filling l) = (
    record pexq {
      qbuf = l.slots;
      qbuf_new_idx = l.msg_idx;
      qbuf_free_cnt = l.free % 2 ^ 16;
      qbuf_pending_cnt = l.pending;
    },
    some l.dbell_log,
  )

  -- nx_schedule_pexqdb, with the completion index that the card wrote: the doorbells to ring, the
  -- latest first, or none for NX_RCODE_NO_HOST_RESOURCE.
  unfoldable pub schedule_pexqdb : ℕ → Pexq M → List M → Pexq M × Option (List Dbell)
  unfolding committed fill last_doorbell update_pending_doorbell
  schedule_pexqdb compl_in pexq ms =
      let p = update_pending_doorbell compl_in pexq in
      committed p (last_doorbell (fill p.qbuf_paddr (free_u32 p) ms (filling (locals_of p))))

-- The command for a doorbell: PEXQ_DB_FIELD_ADDR_40 and _NUM_MSGS, eight words to a message, no
-- completion, its header from the register, and the data in the host.
unfoldable pub post_cmd : Dbell → ℕ
post_cmd d =
    let body = bit_or (d.paddr % 2 ^ 40) (d.num_msgs % 2 ^ 8 * 2 ^ 40) in
    bit_or (bit_or (bit_or (bit_or body (2 * 2 ^ 48)) (2 ^ 51)) (2 ^ 52)) (2 ^ 53)
