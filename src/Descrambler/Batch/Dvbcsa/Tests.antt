-- ===== src/Descrambler/Batch/Dvbcsa/Tests.antt =====
-- A buffer with packets of both parities, and the theorems about it.
use vdr_plugin_dvbapi.Prelude.{
  ℕ, ◌+◌, ◌≤◌, ◌≡◌, refl, true, false, Option, none, some, List, [], ◌∷◌, ◌++◌, replicate, length,
  ◌==◌, if◌then◌else◌, arith,
}
use vdr_plugin_dvbapi.Filter.Packets.{packet_pid}
use vdr_plugin_dvbapi.Descrambler.{ts_packet_get_payload_offset}
use vdr_plugin_dvbapi.Descrambler.Batch.{new_batch, packets, is_scrambled}
use vdr_plugin_dvbapi.Descrambler.Batch.Dvbcsa.{
  Batches, no_batches, batches, batch_step, scrambled_in_batch, own_in_batch, batch_packet,
  finish_batches,
}
use vdr_plugin_dvbapi.Descrambler.Batch.Dvbcsa.Builds.{AlikeEnd, packets-batches}
use vdr_plugin_dvbapi.Descrambler.Batch.Dvbcsa.Room.{length-batches}

-- A packet of the pid 100 with the bits that say how it is scrambled.
abbrev packet : ℕ → List ℕ
packet bits = 0x47 ∷ 0 ∷ 100 ∷ (bits + 0x10) ∷ replicate 184 1

abbrev buffer : List (List ℕ)
buffer = packet 0x80 ∷ packet 0 ∷ packet 0xC0 ∷ []

abbrev mapped : ℕ → Option ℕ
mapped pid = if pid == 100 then some 3 else none

abbrev filled : Batches
filled = record {
  current = some 3;
  wants_parity = 2;
  ccs = 2;
  even = (0, 4) ∷ [];
  odd = (2, 4) ∷ [];
}

abbrev out : List (List ℕ)
out = packet 0 ∷ packet 0 ∷ packet 0 ∷ []

both_parities :
    batches 32 mapped (λ k. 0) (λ k. false) (λ k odd b. b) (λ k odd b. none) 0 buffer no_batches
    ≡ some (filled, out)
unfolding batches batch_step scrambled_in_batch own_in_batch batch_packet is_scrambled packet_pid
    ts_packet_get_payload_offset
both_parities = refl

length-batches_example : length filled.even + length filled.odd ≤ 32
length-batches_example =
    length-batches 32 mapped (λ k. 0) (λ k. false) (λ k odd b. b) (λ k odd b. none) buffer filled
      out (omega arith) both_parities

packets-batches_example :
    AlikeEnd
      (length buffer)
      (packets 32 mapped (λ k. 0) (λ k. false) (λ k odd b. b) (λ k odd b. none) 0 buffer new_batch)
      (batches 128 mapped
        (λ k. 0)
        (λ k. false)
        (λ k odd b. b)
        (λ k odd b. none)
        0
        buffer
        no_batches)
packets-batches_example =
    packets-batches 32 128 mapped (λ k. 0) (λ k. false) (λ k odd b. b) (λ k odd b. none) buffer
      (omega arith) (omega arith)

-- FFdecsa's place is taken by Decrypt_batch, for both parities.
finished :
    finish_batches 32 mapped
      (λ k. 0)
      (λ k. false)
      (λ k odd b. b)
      (λ k odd b. none)
      (λ odd entries ps. if odd then ps ++ [] ∷ [] else [] ∷ ps)
      (λ k. true)
      filled
      out
    ≡ (true, [] ∷ out ++ [] ∷ [])
unfolding finish_batches
finished = refl
