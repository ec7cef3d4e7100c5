-- ===== src/Xmit/Outcome.antt =====
-- What a call of unm_nic_xmit_frame leaves on each of its ways out, in driver/unm_nic_main.c.
pub mod Valid
use hp_nx_nic.Prelude.{
  ℕ, suc, ◌+◌, ◌-◌, ◌/◌, ◌%◌, ◌^◌, ◌≤◌, ◌<◌, ◌≡◌, refl, sym, ap, ◌∙◌, Bool, true, false, ◌≢◌, ◌&&◌,
  Option, none, some, List, [], ◌∷◌, ◌++◌, arith, ltb, leb, ◌==◌, if◌then◌else◌, length, set,
  get_elem?, get_or, take, get_elem?-lt, length-set, if-cases, some-injective,
}
use mathlib.Core.Path.{subst}
use mathlib.Core.Bool.{not}
use mathlib.Core.List.{append-nil}
use mathlib.Core.Option
use hp_nx_nic.CmdRing.Window.{wrap, get_next_index}
use hp_nx_nic.CmdRing.Ring.{Adapter, no_room, update_cmd_producer}
use hp_nx_nic.Xmit.Packet.{Skb, SkbFrag, Frag, Descriptor, desc, Entry}
use hp_nx_nic.Xmit.Fill.{Filling, field, fill_frags}
use hp_nx_nic.Xmit.Headers.{tso_copy_headers, header_overrun}
use hp_nx_nic.Xmit.Frame.{
  Transmit, TxStatus, netdev_tx_ok, netdev_tx_busy, free_skb, drop_packet, requeue_packet,
  is_tagged, max_frags, frag_count, total_size, no_of_desc, first_seg_len, packet_buffer,
  start_packet, start_filling, commit, describe, publish, post_packet, finish_packet, pull_frags,
  map_frags, xmit_locked, xmit_pulled, xmit_frame,
}
use hp_nx_nic.Xmit.Entries.{buffer_at, entry_buffer-desc}
use hp_nx_nic.Xmit.Gather.{Filled, filled, undone, fill_frags-Filled}
use hp_nx_nic.Xmit.Gather.Step.{At}
use hp_nx_nic.Xmit.Post.{Described, posted-Described}
use hp_nx_nic.Xmit.Outcome.Valid.{IsValid, array_room, start_filling-At, room_left}

-- A packet that was posted: `frags` is the fragArray of its command buffer.
pub record Sent (p : Skb) (t t' : Transmit) : Type 0 where
  pub frags : List Frag
  pub described :
      Described t.ring.max_tx_desc_count t.ring.cmd_producer
        (frag_count p)
        frags
        (t'.ring.cmd_producer, t'.ring.cmd_desc_head)
  pub stored : t'.frag_arrays ≡ set t.frag_arrays t.ring.cmd_producer frags
  pub frags_room : length frags ≡ array_room
  pub mapped : t'.mapped ≡ t.mapped ++ take (frag_count p) frags
  pub unmapped : t'.unmapped ≡ t.unmapped
  pub freed : t'.ring.freed ≡ t.ring.freed
  pub buffered :
      t'.ring.cmd_buf_arr
      ≡ Option.map (λ bufs. set bufs t.ring.cmd_producer (packet_buffer p t)) t.ring.cmd_buf_arr
  pub consumer_kept : t'.ring.last_cmd_consumer ≡ t.ring.last_cmd_consumer
  pub max_kept : t'.ring.max_tx_desc_count ≡ t.ring.max_tx_desc_count
  pub locked : t'.locks ≡ t.locks
  pub unlocked : t'.unlocks ≡ t.unlocks + 1

-- A packet that was dropped under the lock.
pub record Dropped (p : Skb) (t t' : Transmit) : Type 0 where
  pub frags : List Frag
  pub mapped : t'.mapped ≡ t.mapped ++ frags
  pub unmapped : t'.unmapped ≡ t.unmapped ++ frags
  pub freed : t'.ring.freed ≡ p.id ∷ t.ring.freed
  pub producer_kept : t'.ring.cmd_producer ≡ t.ring.cmd_producer
  pub consumer_kept : t'.ring.last_cmd_consumer ≡ t.ring.last_cmd_consumer
  pub max_kept : t'.ring.max_tx_desc_count ≡ t.ring.max_tx_desc_count
  pub sized : length t'.ring.cmd_desc_head ≡ length t.ring.cmd_desc_head
  pub counted : t'.txdropped ≡ t.txdropped + 1
  pub locked : t'.locks ≡ t.locks
  pub unlocked : t'.unlocks ≡ t.unlocks + 1

-- The ways out of the part under tx_lock, for the packet `p`.
pub data Handled (p : Skb) (t : Transmit) : TxStatus × Transmit → Type 0 where
  requeued : no_room t.ring (no_of_desc p + 2) ≡ true → Handled p t (requeue_packet t)
  dropped : {t' : Transmit} → Dropped p t t' → Handled p t (netdev_tx_ok, t')
  sent :
      {t' : Transmit}
      → no_room t.ring (no_of_desc p + 2) ≡ false
      → Sent p t t'
      → Handled p t (netdev_tx_ok, t')

abbrev ends_of : Adapter Entry → ℕ × List Entry
ends_of a = (a.cmd_producer, a.cmd_desc_head)

-- Writing the producer register keeps the rest.
record Updated (a a' : Adapter Entry) : Type 0 where
  ends : ends_of a' ≡ ends_of a
  freed : a'.freed ≡ a.freed
  buffered : a'.cmd_buf_arr ≡ a.cmd_buf_arr
  consumer_kept : a'.last_cmd_consumer ≡ a.last_cmd_consumer
  max_kept : a'.max_tx_desc_count ≡ a.max_tx_desc_count

update-Updated : (a : Adapter Entry) (n : ℕ) → Updated a (update_cmd_producer a n)
unfolding update_cmd_producer
update-Updated a n =
    if-cases (Updated a) a.crb_addr_cmd_producer
      (λ e. record {
        ends = refl;
        freed = refl;
        buffered = refl;
        consumer_kept = refl;
        max_kept = refl;
      })
      (λ e. record {
        ends = refl;
        freed = refl;
        buffered = refl;
        consumer_kept = refl;
        max_kept = refl;
      })

-- The adapter behind the mapping of the first fragment, and what the loop makes of it.
module _ (p : Skb) (tagged : Bool) (t : Transmit) (valid : IsValid t)
    (few : frag_count p ≤ 14) where
  pub drop_started : Handled p t (drop_packet p (start_packet p t))
  unfolding start_packet
  drop_started = dropped (record {
    frags = [];
    mapped = sym (append-nil t.mapped);
    unmapped = sym (append-nil t.unmapped);
    freed = refl;
    producer_kept = refl;
    consumer_kept = refl;
    max_kept = refl;
    sized = length-set t.ring.cmd_desc_head t.ring.cmd_producer _;
    counted = refl;
    locked = refl;
    unlocked = refl;
  })

  publish-Sent :
      (s : Filling) (out : ℕ × List Entry) (run_over : List ℕ)
      → At t.ring.max_tx_desc_count t.ring.cmd_producer array_room (frag_count p) s
      → Described t.ring.max_tx_desc_count t.ring.cmd_producer (frag_count p) s.frag_array out
      → Sent p t (publish (record (commit (start_packet p t) s) { overrun = run_over }) out).1
  unfolding publish commit start_packet
  publish-Sent s (producer, ring) run_over at d =
      let started = (commit (start_packet p t) s).ring in
      let u =
        update-Updated (record started { cmd_desc_head = ring; cmd_producer = producer })
          producer in
      record {
        frags = s.frag_array;
        described =
            subst
              (Described t.ring.max_tx_desc_count t.ring.cmd_producer (frag_count p) s.frag_array)
              (sym u.ends) d;
        stored = refl;
        frags_room = at.roomy;
        mapped = ap (λ l. t.mapped ++ l) at.mapped_all;
        unmapped = ap (λ l. t.unmapped ++ l) at.unmapped_none ∙ append-nil t.unmapped;
        freed = u.freed;
        buffered = u.buffered;
        consumer_kept = u.consumer_kept;
        max_kept = u.max_kept;
        locked = refl;
        unlocked = refl;
      }

  first_described :
      (s : Filling)
      → At t.ring.max_tx_desc_count t.ring.cmd_producer array_room (frag_count p) s
      → (d : Descriptor) × (get_elem? s.ring t.ring.cmd_producer ≡ some (desc d))
  first_described s at =
      let (f, e) = get_elem?-lt s.frag_array 0 (omega (arith, at.roomy)) in
      let index : wrap t.ring.max_tx_desc_count (t.ring.cmd_producer + 0 / 4)
          ≡ t.ring.cmd_producer =
        ground (arith, valid.producer_in) in
      entry_buffer-desc (get_elem? s.ring t.ring.cmd_producer) 0 (field f)
        (ap (λ i. buffer_at s.ring i 0) (sym index) ∙ at.holds 0 f (omega arith) e)

  next_free :
      (n producer : ℕ)
      → (1 + n + 3) / 4 + 2 < t.ring.max_tx_desc_count
      → producer ≡ wrap t.ring.max_tx_desc_count (t.ring.cmd_producer + (1 + n - 1) / 4)
      → get_next_index producer t.ring.max_tx_desc_count
        ≡ wrap t.ring.max_tx_desc_count (t.ring.cmd_producer + (1 + n + 3) / 4)
  next_free n producer fits e = ground (arith, valid.producer_in)

  post-Sent :
      (s : Filling)
      → no_room t.ring (no_of_desc p + 2) ≡ false
      → At t.ring.max_tx_desc_count t.ring.cmd_producer array_room (frag_count p) s
      → Sent p t (post_packet p tagged (commit (start_packet p t) s) s.producer).1
  unfolding post_packet commit start_packet
  post-Sent s room at =
      let size = t.ring.max_tx_desc_count in
      let saved = t.ring.cmd_producer in
      let n = frag_count p in
      let last : get_next_index s.producer size ≡ wrap size (saved + (n + 3) / 4) =
        next_free (length p.frags) s.producer (room_left t p valid few room) at.producer_at in
      let (d, there) = first_described s at in
      publish-Sent s
        (tso_copy_headers size p saved
          (get_next_index s.producer size, describe p tagged saved s.ring))
        (t.overrun ++ header_overrun p (get_elem? (describe p tagged saved s.ring) saved)) at
        (subst
          (λ q.
            Described size saved n s.frag_array
              (tso_copy_headers size p saved (q, describe p tagged saved s.ring)))
          (sym last)
          (posted-Described size saved n valid.producer_in (room_left t p valid few room) p tagged
            s.ring s.frag_array d at.sized there at.holds))

  undone-Handled :
      (s : Filling)
      → s.unmapped ≡ s.mapped
      → length s.ring ≡ t.ring.max_tx_desc_count
      → Handled p t (drop_packet p (commit (start_packet p t) s))
  unfolding commit start_packet
  undone-Handled s taken sized = dropped (record {
    frags = s.mapped;
    mapped = refl;
    unmapped = ap (λ l. t.unmapped ++ l) taken;
    freed = refl;
    producer_kept = refl;
    consumer_kept = refl;
    max_kept = refl;
    sized = sized ∙ sym valid.sized;
    counted = refl;
    locked = refl;
    unlocked = refl;
  })

  pub finish-Handled :
      (out : Bool × Filling)
      → no_room t.ring (no_of_desc p + 2) ≡ false
      → Filled t.ring.max_tx_desc_count t.ring.cmd_producer array_room (frag_count p) out
      → Handled p t (finish_packet p tagged (start_packet p t) out)
  unfolding finish_packet
  finish-Handled out room (undone {s = s} taken sized) = undone-Handled s taken sized
  finish-Handled out room (filled {s = s} at) = sent room (post-Sent s room at)
