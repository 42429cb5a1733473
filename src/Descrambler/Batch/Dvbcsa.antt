-- ===== src/Descrambler/Batch/Dvbcsa.antt =====
-- DeCSA.cpp: `DeCSAAdapter::Decrypt` built with libdvbcsa, where the packets of a key go to two batches
-- by their parity, in place of the ranges of FFdecsa.
pub mod Builds
pub mod Room
mod Tests
use vdr_plugin_dvbapi.Prelude.{
  ℕ, suc, ◌+◌, Bool, true, false, not, ◌&&◌, ◌||◌, Option, none, some, List, [], ◌∷◌, ◌++◌, ltb,
  leb, ◌==◌, get_or, if◌then◌else◌,
}
use vdr_plugin_dvbapi.Filter.{max_csa_pid}
use vdr_plugin_dvbapi.Filter.Packets.{packet_pid}
use vdr_plugin_dvbapi.Descrambler.{ts_packet_get_payload_offset}
use vdr_plugin_dvbapi.Descrambler.Keys.{algo_des, algo_aes128}
use vdr_plugin_dvbapi.Descrambler.Batch.{
  is_scrambled, is_odd, is_current, clear_scrambling, des_packet, aes_packet,
}

-- The variables of the loop. A batch has, for each of its packets, the number of the packet and the
-- offset of its payload.
pub record Batches : Type 0 where
  pub current : Option ℕ
  pub wants_parity : ℕ
  pub ccs : ℕ
  pub even : List (ℕ × ℕ)
  pub odd : List (ℕ × ℕ)

abbrev pub no_batches : Batches
no_batches = record { current = none; wants_parity = 0; ccs = 0; even = []; odd = [] }

pub data Then : Type 0 where
  on : Batches → List ℕ → Then
  end : Batches → List ℕ → Then
  reject : Then

pub batch_packet : ℕ → List ℕ → Batches → Batches
batch_packet i p s =
    let entry : ℕ × ℕ = (i, ts_packet_get_payload_offset p) in
    record s {
      ccs = s.ccs + 1;
      even = if is_odd p then s.even else s.even ++ entry ∷ [];
      odd = if is_odd p then s.odd ++ entry ∷ [] else s.odd;
    }

module _ (cs : ℕ) (search : ℕ → Option ℕ) (algo : ℕ → ℕ) (aes : ℕ → Bool)
    (des : ℕ → Bool → List ℕ → List ℕ) (aes_decrypt : ℕ → Bool → List ℕ → Option (List ℕ)) where
  abbrev pub choose : ℕ → List ℕ → Batches → Batches
  choose k p s = record s { current = some k; wants_parity = if is_odd p then 2 else 1 }

  pub own_in_batch : ℕ → ℕ → List ℕ → Batches → Then
  unfolding batch_packet
  own_in_batch k i p s =
      let s' = choose k p s in
      let added = batch_packet i p s' in
      let decrypted = elim (aes_packet cs search algo aes des aes_decrypt k p) as (λ _. Then) [
        | none ↦ on s' p
        | some p' ↦ on s' p'
      ] in
      if algo k == algo_des
      then on s' (des_packet cs search algo aes des aes_decrypt k p)
      else if algo k == algo_aes128 || aes k
      then decrypted
      else if leb cs added.ccs
      then end added (clear_scrambling p)
      else on added (clear_scrambling p)

  pub scrambled_in_batch : ℕ → List ℕ → Batches → Then
  unfolding own_in_batch
  scrambled_in_batch i p s =
      let pid = packet_pid p in
      let mapped = elim (search pid) as (λ _. Then) [
        | none ↦ if i == 0 then reject else on s p
        | some k ↦
            if i == 0 && pid == max_csa_pid
            then reject
            else if ltb pid max_csa_pid && is_current s.current k
            then own_in_batch k i p s
            else on s p
      ] in
      if ts_packet_get_payload_offset p == 0 then on s p else mapped

  pub batch_step : ℕ → List ℕ → Batches → Then
  unfolding scrambled_in_batch
  batch_step i p s =
      if not (get_or p 0 0 == 0x47)
      then end s p
      else if is_scrambled p
      then scrambled_in_batch i p s
      else if i == 0
      then reject
      else on s p

  -- The loop; none where Decrypt returns false in it.
  pub batches : ℕ → List (List ℕ) → Batches → Option (Batches × List (List ℕ))
  unfolding batch_step
  batches i [] s = some (s, [])
  batches i (p ∷ ps) s = elim (batch_step i p s) as (λ _. Option (Batches × List (List ℕ))) [
    | reject ↦ none
    | end s' p' ↦ some (s', p' ∷ ps)
    | on s' p' ↦ elim (batches (suc i) ps s') as (λ _. Option (Batches × List (List ℕ))) [
      | none ↦ none
      | some (s'', ps') ↦ some (s'', p' ∷ ps')
    ]
  ]

  -- Behind the loop, over `Decrypt_batch` with the parity; `has_key` is `GetKeyStruct`.
  abbrev pub run_batch :
      (Bool → List (ℕ × ℕ) → List (List ℕ) → List (List ℕ))
      → Bool
      → List (ℕ × ℕ)
      → List (List ℕ)
      → List (List ℕ)
  run_batch decrypt_batch odd [] ps = ps
  run_batch decrypt_batch odd (b ∷ bs) ps = decrypt_batch odd (b ∷ bs) ps

  pub finish_batches :
      (Bool → List (ℕ × ℕ) → List (List ℕ) → List (List ℕ))
      → (ℕ → Bool)
      → Batches
      → List (List ℕ)
      → Bool × List (List ℕ)
  finish_batches decrypt_batch has_key s ps = elim s.current as (λ _. Bool × List (List ℕ)) [
    | none ↦ (false, ps)
    | some k ↦
        let all = run_batch decrypt_batch true s.odd (run_batch decrypt_batch false s.even ps) in
        if algo k == algo_des || (algo k == algo_aes128 || aes k)
        then (true, ps)
        else if ltb 0 s.wants_parity && has_key k
        then (true, all)
        else (false, ps)
  ]
