-- ===== src/Descrambler/Batch/Tests.antt =====
-- Runs of the loop over the packets, and the theorems about it at a concrete buffer.
use vdr_plugin_dvbapi.Prelude.{
  ℕ, ◌≡◌, refl, Bool, true, false, List, [], ◌∷◌, some, none, Option, replicate, ◌==◌,
  if◌then◌else◌,
}
use vdr_plugin_dvbapi.Filter.Packets.{packet_pid}
use vdr_plugin_dvbapi.Descrambler.{ts_packet_get_payload_offset}
use vdr_plugin_dvbapi.Descrambler.Batch.{
  Batch, new_batch, packets, packet_step, scrambled_packet, own_packet, hole, add_packet,
  is_scrambled,
}
use vdr_plugin_dvbapi.Descrambler.Batch.Ranges.{in_ranges, belongs}
use vdr_plugin_dvbapi.Descrambler.Batch.Safety.{packets-in_ranges}

-- A packet of a pid with a payload, scrambled with the even key or clear.
abbrev packet : ℕ → Bool → List ℕ
packet pid scrambled = 0x47 ∷ 0 ∷ pid ∷ (if scrambled then 0x90 else 0x10) ∷ replicate 184 0

-- The pids 100 and 101 are mapped to the key 3, the pid 102 to the key 4.
abbrev map_of_three : ℕ → Option ℕ
map_of_three pid =
    if pid == 100
    then some 3
    else if pid == 101
    then some 3
    else if pid == 102
    then some 4
    else none

abbrev buffer : List (List ℕ)
buffer = packet 100 true ∷ packet 5 false ∷ packet 101 true ∷ packet 102 true ∷ packet 100 true ∷ []

abbrev batch : Batch
batch = record {
  current = some 3;
  cur_pid = 100;
  wants_parity = 1;
  ccs = 3;
  new_range = false;
  ranges = (4, 5) ∷ (0, 3) ∷ [];
}

two_ranges :
    packets 32 map_of_three
      (λ k. 0)
      (λ k. false)
      (λ k odd b. b)
      (λ k odd b. none)
      0
      buffer
      new_batch
    ≡ some (batch, buffer)
unfolding packets packet_step scrambled_packet own_packet hole add_packet is_scrambled packet_pid
    ts_packet_get_payload_offset
two_ranges = refl

within : in_ranges 1 batch.ranges ≡ true
unfolding in_ranges
within = refl

packets-in_ranges_example : belongs map_of_three (some 3) (packet 5 false) ≡ true
packets-in_ranges_example =
    packets-in_ranges 32 map_of_three (λ k. 0) (λ k. false) (λ k odd b. b) (λ k odd b. none) buffer
      buffer batch 1 two_ranges within
