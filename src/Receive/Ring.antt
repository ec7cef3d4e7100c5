-- ===== src/Receive/Ring.antt =====
-- The contract of unm_process_rcv_ring, in driver/unm_nic_main.c.
use hp_nx_nic.Prelude.{ℕ, ◌+◌, ◌^◌, ◌%◌, ◌≤◌, ◌<◌, ◌≡◌, some, List, length}
use hp_nx_nic.Receive.Status.{Message, SdsRing, Polling}
use hp_nx_nic.Receive.Spans.{spans, released}
use hp_nx_nic.Receive.Polls.{Begin, Stops, Polls}

pub record IsRing (sds : SdsRing) : Type 0 where
  pub exponent : ℕ
  pub power : sds.max_rx_desc_count ≡ 2 ^ exponent
  pub consumer_in : sds.consumer < sds.max_rx_desc_count

-- What a call takes and leaves.
pub record Consumes (sds : SdsRing) (max : ℕ) (out : ℕ × List Message × SdsRing) : Type 0 where
  pub few : length out.1 ≤ max
  pub handed_back :
      out.2.desc_head ≡ released sds.max_rx_desc_count sds.desc_head sds.consumer (spans out.1)
  pub moved : out.2.consumer ≡ (sds.consumer + spans out.1) % sds.max_rx_desc_count
  pub written : 0 < length out.1 → out.2.host_sds_consumer ≡ some out.2.consumer
  pub kept : length out.1 ≡ 0 → out.2.host_sds_consumer ≡ sds.host_sds_consumer
  pub begin : Begin sds.max_rx_desc_count out.1 sds.desc_head sds.consumer
  pub stops :
      Stops sds max
        (length out.1)
        (length out.1)
        (record { ring = out.2.desc_head; consumer = out.2.consumer; count = out.0; calls = out.1 })

-- Writing the consumer index, if there is one to write.
record Written (sds : SdsRing) (s : Polling) (sds' : SdsRing) : Type 0 where
  ring_put : sds'.desc_head ≡ s.ring
  consumer_put : 0 < s.count → sds'.consumer ≡ s.consumer
  consumer_kept : s.count ≡ 0 → sds'.consumer ≡ sds.consumer
  register_kept : s.count ≡ 0 → sds'.host_sds_consumer ≡ sds.host_sds_consumer
  register_put : 0 < s.count → sds'.host_sds_consumer ≡ some s.consumer
