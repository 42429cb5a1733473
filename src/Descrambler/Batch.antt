-- ===== src/Descrambler/Batch.antt =====
-- DeCSA.cpp: the loop of `DeCSAAdapter::Decrypt` over the packets of a buffer, built with FFdecsa and
-- OpenSSL. It decrypts DES and AES packets in place, and collects ranges of packets for FFdecsa.
-- Packets are counted: the packet `i` stands at `data + i * TS_SIZE`.
pub mod Agree
pub mod Bounds
pub mod Loop
pub mod Ranges
pub mod Safety
pub mod Finish
pub mod Service
pub mod Dvbcsa
mod Tests
use vdr_plugin_dvbapi.Prelude.{
  ℕ, zero, suc, ◌+◌, ◌-◌, ◌*◌, ◌/◌, Bool, true, false, not, ◌&&◌, ◌||◌, Option, none, some, List,
  [], ◌∷◌, ◌++◌, ltb, leb, ◌==◌, bit_and, get_or, set, length, take, drop, if◌then◌else◌,
}
use vdr_plugin_dvbapi.Filter.{ts_size, max_csa_pid}
use vdr_plugin_dvbapi.Filter.Packets.{packet_pid}
use vdr_plugin_dvbapi.Descrambler.{ts_packet_get_payload_offset}
use vdr_plugin_dvbapi.Descrambler.Keys.{algo_des, algo_aes128}

-- The variables of the loop. `ranges` is `rangenew`, its last range first: a range is the numbers of
-- its first packet and of the one behind its last. `r` is -2 where it is empty.
pub record Batch : Type 0 where
  pub current : Option ℕ
  pub cur_pid : ℕ
  pub wants_parity : ℕ
  pub ccs : ℕ
  pub new_range : Bool
  pub ranges : List (ℕ × ℕ)

abbrev pub new_batch : Batch
new_batch = record {
  current = none;
  cur_pid = 0;
  wants_parity = 0;
  ccs = 0;
  new_range = true;
  ranges = [];
}

-- What the loop does after a packet: it goes on or breaks, with the packet as it is then, or Decrypt
-- returns false.
pub data Next : Type 0 where
  go : Batch → List ℕ → Next
  stop : Batch → List ℕ → Next
  refuse : Next

unfoldable pub is_scrambled : List ℕ → Bool
is_scrambled p = not (bit_and (bit_and (get_or p 3 0) 0xC0) 0x80 == 0)

-- The parity bit, `(ev_od & 0x40) >> 6`.
abbrev pub is_odd : List ℕ → Bool
is_odd p = not (bit_and (bit_and (get_or p 3 0) 0xC0) 0x40 == 0)

abbrev pub is_current : Option ℕ → ℕ → Bool
is_current none k = true
is_current (some c) k = k == c

abbrev pub clear_scrambling : List ℕ → List ℕ
clear_scrambling p = set p 3 (bit_and (get_or p 3 0) 0x3F)

-- The packet goes to the last range, or starts one.
abbrev pub extend : ℕ → List (ℕ × ℕ) → List (ℕ × ℕ)
extend i [] = []
extend i ((a, b) ∷ rs) = (a, suc i) ∷ rs

pub add_packet : ℕ → Batch → Batch
add_packet i s = record s {
  ccs = s.ccs + 1;
  new_range = false;
  ranges = if s.new_range then (i, suc i) ∷ s.ranges else extend i s.ranges;
}

-- The blocks of eight bytes, for as many rounds as there are bytes.
pub des_blocks : (List ℕ → List ℕ) → ℕ → List ℕ → List ℕ
des_blocks f zero bytes = bytes
des_blocks f (suc fuel) bytes =
    let rest = f (take 8 bytes) ++ des_blocks f fuel (drop 8 bytes) in
    if ltb (length bytes) 8 then bytes else rest

-- Over the size of a cluster, the pid map, and the keys: `GetAlgo`, `GetAes`, `Des` and `AesDecrypt`.
module _ (csnew : ℕ) (search : ℕ → Option ℕ) (algo : ℕ → ℕ) (aes : ℕ → Bool)
    (des : ℕ → Bool → List ℕ → List ℕ) (aes_decrypt : ℕ → Bool → List ℕ → Option (List ℕ)) where
  pub des_packet : ℕ → List ℕ → List ℕ
  unfolding des_blocks
  des_packet k p =
      let offset = ts_packet_get_payload_offset p in
      clear_scrambling (take offset p ++ des_blocks (des k (is_odd p)) (length p) (drop offset p))

  pub aes_packet : ℕ → List ℕ → Option (List ℕ)
  aes_packet k p =
      let offset = ts_packet_get_payload_offset p in
      let n = (ts_size - offset) / 16 * 16 in
      elim (aes_decrypt k (is_odd p) (take n (drop offset p))) as (λ _. Option (List ℕ)) [
        | none ↦ none
        | some out ↦ some (clear_scrambling (take offset p ++ (out ++ drop (offset + n) p)))
      ]

  -- A packet whose pid is mapped to the current index, or to `k` where there is none yet.
  abbrev pub select : ℕ → List ℕ → Batch → Batch
  select k p s = record s {
    current = some k;
    cur_pid = packet_pid p;
    wants_parity = if is_odd p then 2 else 1;
  }

  pub own_packet : ℕ → ℕ → List ℕ → Batch → Next
  unfolding des_packet aes_packet add_packet
  own_packet k i p s =
      let s' = select k p s in
      let added = add_packet i s' in
      let decrypted = elim (aes_packet k p) as (λ _. Next) [
        | none ↦ go s' p
        | some p' ↦ go s' p'
      ] in
      if algo k == algo_des
      then go s' (des_packet k p)
      else if algo k == algo_aes128 || aes k
      then decrypted
      else if leb csnew added.ccs
      then stop added p
      else go added p

  pub hole : Batch → Batch
  hole s = record s { new_range = true }

  pub scrambled_packet : ℕ → List ℕ → Batch → Next
  unfolding own_packet hole
  scrambled_packet i p s =
      let pid = packet_pid p in
      let mapped = elim (search pid) as (λ _. Next) [
        | none ↦ if i == 0 then refuse else go (hole s) p
        | some k ↦
            if i == 0 && pid == max_csa_pid
            then refuse
            else if ltb pid max_csa_pid && is_current s.current k
            then own_packet k i p s
            else go (hole s) p
      ] in
      if ts_packet_get_payload_offset p == 0 then go (hole s) p else mapped

  pub packet_step : ℕ → List ℕ → Batch → Next
  unfolding scrambled_packet is_scrambled
  packet_step i p s =
      if not (get_or p 0 0 == 0x47)
      then stop s p
      else if is_scrambled p
      then scrambled_packet i p s
      else if i == 0
      then refuse
      else go s p

  -- The loop from the packet `i` on; none where Decrypt returns false in it.
  pub packets : ℕ → List (List ℕ) → Batch → Option (Batch × List (List ℕ))
  unfolding packet_step
  packets i [] s = some (s, [])
  packets i (p ∷ ps) s = elim (packet_step i p s) as (λ _. Option (Batch × List (List ℕ))) [
    | refuse ↦ none
    | stop s' p' ↦ some (s', p' ∷ ps)
    | go s' p' ↦ elim (packets (suc i) ps s') as (λ _. Option (Batch × List (List ℕ))) [
      | none ↦ none
      | some (s'', ps') ↦ some (s'', p' ∷ ps')
    ]
  ]
