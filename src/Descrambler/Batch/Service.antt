-- ===== src/Descrambler/Batch/Service.antt =====
-- The loop of Decrypt over the packets of one pid and one parity, which FFdecsa is to decrypt.
use vdr_plugin_dvbapi.Prelude.{
  ℕ, suc, ◌+◌, ◌<◌, ◌≡◌, ◌≢◌, refl, ap, ◌∙◌, Bool, true, false, ◌&&◌, Option, some, List, [], ◌∷◌,
  ltb, leb, ◌==◌, ==_refl, get_or, length, min, if◌then◌else◌, arith,
}
use vdr_plugin_dvbapi.Filter.{max_csa_pid}
use vdr_plugin_dvbapi.Filter.Packets.{packet_pid}
use vdr_plugin_dvbapi.Descrambler.{ts_packet_get_payload_offset}
use vdr_plugin_dvbapi.Descrambler.Keys.{algo_dvbcsa}
use vdr_plugin_dvbapi.Descrambler.Batch.{
  Batch, new_batch, go, stop, is_scrambled, is_odd, own_packet, scrambled_packet, packet_step,
  packets, add_packet, is_current,
}

-- A valid scrambled packet of a pid and a parity.
pub record Fits (pid : ℕ) (odd : Bool) (p : List ℕ) : Type 0 where
  pub sync : get_or p 0 0 ≡ 0x47
  pub scrambled : is_scrambled p ≡ true
  pub payload : ts_packet_get_payload_offset p ≢ 0
  pub of_pid : packet_pid p ≡ pid
  pub parity : is_odd p ≡ odd

unfoldable pub AllFit : ℕ → Bool → List (List ℕ) → Type 0
AllFit pid odd [] = Unit
AllFit pid odd (p ∷ ps) = Fits pid odd p × AllFit pid odd ps

-- The loop has collected the first `n` packets in one range, for a key.
abbrev pub gathered : ℕ → ℕ → Bool → ℕ → Batch
gathered pid k odd n = record {
  current = some k;
  cur_pid = pid;
  wants_parity = if odd then 2 else 1;
  ccs = n;
  new_range = false;
  ranges = (0, n) ∷ [];
}

module _ (csnew : ℕ) (search : ℕ → Option ℕ) (algo : ℕ → ℕ) (aes : ℕ → Bool)
    (des : ℕ → Bool → List ℕ → List ℕ) (aes_decrypt : ℕ → Bool → List ℕ → Option (List ℕ))
    (pid k : ℕ) (odd : Bool) (small : pid < max_csa_pid) (mapped : search pid ≡ some k)
    (csa : algo k ≡ algo_dvbcsa) (not_aes : aes k ≡ false) where
  own_packet-gathered :
      (i : ℕ) (p : List ℕ) (s : Batch)
      → Fits pid odd p
      → s.ccs + 1 ≡ suc i
      → add_packet i
          (record s { current = some k; cur_pid = pid; wants_parity = if odd then 2 else 1 })
        ≡ gathered pid k odd (suc i)
      → own_packet csnew search algo aes des aes_decrypt k i p s ≡ (
          if leb csnew (suc i)
          then stop (gathered pid k odd (suc i)) p
          else go (gathered pid k odd (suc i)) p)
  unfolding own_packet
  own_packet-gathered i p s f n e = rw (f.of_pid, f.parity, csa, not_aes, e, n) refl

  packet_step-gathered :
      (i : ℕ) (p : List ℕ) (s : Batch)
      → Fits pid odd p
      → is_current s.current k ≡ true
      → packet_step csnew search algo aes des aes_decrypt i p s
        ≡ own_packet csnew search algo aes des aes_decrypt k i p s
  unfolding packet_step scrambled_packet
  packet_step-gathered i p s f c =
      let offset : (ts_packet_get_payload_offset p == 0) ≡ false = ground (arith, f.payload) in
      let found : search (packet_pid p) ≡ some k = ap search f.of_pid ∙ mapped in
      let in_map : ltb (packet_pid p) max_csa_pid ≡ true = ground (arith, f.of_pid) in
      let not_last : (i == 0 && packet_pid p == max_csa_pid) ≡ false = ground (arith, f.of_pid) in
      rw (f.sync, f.scrambled, offset, found, not_last, in_map, c) refl

  collect_by :
      (b : Bool) (i : ℕ) (p : List ℕ) (ps : List (List ℕ)) (s : Batch)
      → leb csnew (suc i) ≡ b
      → i < csnew
      → packet_step csnew search algo aes des aes_decrypt i p s
        ≡ (if b then stop (gathered pid k odd (suc i)) p else go (gathered pid k odd (suc i)) p)
      → (suc i < csnew
          → packets csnew search algo aes des aes_decrypt (suc i) ps (gathered pid k odd (suc i))
            ≡ some (gathered pid k odd (min csnew (suc i + length ps)), ps))
      → packets csnew search algo aes des aes_decrypt i (p ∷ ps) s
        ≡ some (gathered pid k odd (min csnew (i + length (p ∷ ps))), p ∷ ps)
  unfolding packets
  collect_by true i p ps s full room step later =
      let last : suc i ≡ min csnew (i + suc (length ps)) = ground arith in
      rw (packets, step, last) refl
  collect_by false i p ps s full room step later =
      let next : suc i + length ps ≡ i + suc (length ps) = omega arith in
      let more : suc i < csnew = ground arith in rw (packets, step, later more, next) refl

  collect_one :
      (i : ℕ) (p : List ℕ) (ps : List (List ℕ)) (s : Batch)
      → Fits pid odd p
      → is_current s.current k ≡ true
      → s.ccs + 1 ≡ suc i
      → add_packet i
          (record s { current = some k; cur_pid = pid; wants_parity = if odd then 2 else 1 })
        ≡ gathered pid k odd (suc i)
      → i < csnew
      → (suc i < csnew
          → packets csnew search algo aes des aes_decrypt (suc i) ps (gathered pid k odd (suc i))
            ≡ some (gathered pid k odd (min csnew (suc i + length ps)), ps))
      → packets csnew search algo aes des aes_decrypt i (p ∷ ps) s
        ≡ some (gathered pid k odd (min csnew (i + length (p ∷ ps))), p ∷ ps)
  collect_one i p ps s f c n e room later =
      collect_by (leb csnew (suc i)) i p ps s refl room
        (packet_step-gathered i p s f c ∙ own_packet-gathered i p s f n e) later

  collect :
      (i : ℕ) (ps : List (List ℕ))
      → AllFit pid odd ps
      → i < csnew
      → packets csnew search algo aes des aes_decrypt i ps (gathered pid k odd i)
        ≡ some (gathered pid k odd (min csnew (i + length ps)), ps)
  unfolding packets add_packet AllFit
  collect i [] f room =
      let whole : i ≡ min csnew (i + 0) = ground arith in
      ap (λ n. some (gathered pid k odd n, [])) whole
  collect i (p ∷ ps) (f, fs) room =
      let count : i + 1 ≡ suc i = omega arith in
      collect_one i p ps (gathered pid k odd i) f (==_refl k) count (rw count refl) room
        (λ more. collect (suc i) ps fs more)

  -- For a buffer of valid scrambled packets of one pid and one parity, whose key is one of CSA, the loop
  -- collects the first packets in one range, up to the size of a cluster, and changes no packet.
  pub packets-AllFit :
      (p : List ℕ) (ps : List (List ℕ))
      → Fits pid odd p
      → AllFit pid odd ps
      → 0 < csnew
      → packets csnew search algo aes des aes_decrypt 0 (p ∷ ps) new_batch
        ≡ some (gathered pid k odd (min csnew (length (p ∷ ps))), p ∷ ps)
  unfolding add_packet
  packets-AllFit p ps f fs room =
      let one : 0 + suc (length ps) ≡ suc (length ps) = omega arith in
      collect_one 0 p ps new_batch f refl refl refl room (λ more. collect 1 ps fs more)
      ∙ ap (λ n. some (gathered pid k odd (min csnew n), p ∷ ps)) one
