-- ===== src/Descrambler/Batch/Dvbcsa/Builds.antt =====
-- The loops of the two builds, packet by packet.
use vdr_plugin_dvbapi.Prelude.{
  ℕ, suc, ◌+◌, ◌≤◌, ◌<◌, ◌≡◌, arith, length, refl, ap, subst, Bool, true, false, not, ◌&&◌, ◌||◌,
  Option, none, some, List, [], ◌∷◌, ltb, leb, ◌==◌, get_or, if◌then◌else◌,
}
use vdr_plugin_dvbapi.Filter.{max_csa_pid}
use vdr_plugin_dvbapi.Filter.Packets.{packet_pid}
use vdr_plugin_dvbapi.Descrambler.{ts_packet_get_payload_offset}
use vdr_plugin_dvbapi.Descrambler.Keys.{algo_des, algo_aes128}
use vdr_plugin_dvbapi.Descrambler.Batch.{
  Batch, new_batch, Next, go, stop, refuse, is_scrambled, is_current, own_packet, scrambled_packet,
  packet_step, packets, add_packet, hole, aes_packet, select, clear_scrambling,
}
use vdr_plugin_dvbapi.Descrambler.Batch.Dvbcsa.{
  Batches, no_batches, Then, on, end, reject, own_in_batch, scrambled_in_batch, batch_step, batches,
  batch_packet, choose,
}

-- The loops have the same key, parity and number of packets, which is at most `n`.
pub record Alike (n : ℕ) (s : Batch) (b : Batches) : Type 0 where
  pub same_current : s.current ≡ b.current
  pub same_parity : s.wants_parity ≡ b.wants_parity
  pub same_ccs : s.ccs ≡ b.ccs
  pub few : s.ccs ≤ n

at_most-Alike : (i n : ℕ) (s : Batch) (b : Batches) → i ≤ n → Alike i s b → Alike n s b
at_most-Alike i n s b l h = record {
  same_current = h.same_current;
  same_parity = h.same_parity;
  same_ccs = h.same_ccs;
  few = omega (arith, h.few);
}

unfoldable pub AlikeNext : ℕ → Next → Then → Type 0
AlikeNext n (go s p) (on b q) = Alike n s b
AlikeNext n (stop s p) (end b q) = Alike n s b
AlikeNext n refuse reject = Unit
AlikeNext n _ _ = ⊥

-- Both loops return false, or end with the same.
unfoldable pub AlikeEnd :
    ℕ → Option (Batch × List (List ℕ)) → Option (Batches × List (List ℕ)) → Type 0
AlikeEnd n none none = Unit
AlikeEnd n (some (s, ps)) (some (b, qs)) = Alike n s b
AlikeEnd n _ _ = ⊥

AlikeEnd-cons :
    (n : ℕ) (p q : List ℕ) (x : Option (Batch × List (List ℕ)))
    (y : Option (Batches × List (List ℕ)))
    → AlikeEnd n x y
    → AlikeEnd n
        (elim x as (λ _. Option (Batch × List (List ℕ))) [
          | none ↦ none
          | some (s, ps) ↦ some (s, p ∷ ps)
        ])
        (elim y as (λ _. Option (Batches × List (List ℕ))) [
          | none ↦ none
          | some (b, qs) ↦ some (b, q ∷ qs)
        ])
unfolding AlikeEnd
AlikeEnd-cons n p q none none h = tt
AlikeEnd-cons n p q none (some y) h = absurd h
AlikeEnd-cons n p q (some x) none h = absurd h
AlikeEnd-cons n p q (some x) (some y) h = h

if-AlikeNext :
    (n : ℕ) (c : Bool) (x y : Next) (v w : Then)
    → AlikeNext n x v
    → AlikeNext n y w
    → AlikeNext n (if c then x else y) (if c then v else w)
if-AlikeNext n true x y v w h g = h
if-AlikeNext n false x y v w h g = g

-- Neither build ends the loop by the count of packets.
collected-AlikeNext :
    (csnew cs n : ℕ) (p : List ℕ) (s : Batch) (b : Batches)
    → Alike n s b
    → n < csnew
    → n < cs
    → AlikeNext n
        (if leb csnew s.ccs then stop s p else go s p)
        (if leb cs b.ccs then end b (clear_scrambling p) else on b (clear_scrambling p))
unfolding AlikeNext
collected-AlikeNext csnew cs n p s b h small small' =
    let few = h.few in
    let same = h.same_ccs in
    let e : leb csnew s.ccs ≡ false = ground arith in
    let e' : leb cs b.ccs ≡ false = ground arith in rw (e, e') h

module _ (csnew cs : ℕ) (search : ℕ → Option ℕ) (algo : ℕ → ℕ) (aes : ℕ → Bool)
    (des : ℕ → Bool → List ℕ → List ℕ) (aes_decrypt : ℕ → Bool → List ℕ → Option (List ℕ)) where
  select-Alike :
      (n k : ℕ) (p : List ℕ) (s : Batch) (b : Batches)
      → Alike n s b
      → Alike n
          (select csnew search algo aes des aes_decrypt k p s)
          (choose cs search algo aes des aes_decrypt k p b)
  select-Alike n k p s b h = record {
    same_current = refl;
    same_parity = refl;
    same_ccs = h.same_ccs;
    few = h.few;
  }

  add_packet-Alike :
      (i : ℕ) (p : List ℕ) (s : Batch) (b : Batches)
      → Alike i s b
      → Alike (i + 1) (add_packet i s) (batch_packet i p b)
  unfolding add_packet batch_packet
  add_packet-Alike i p s b h = record {
    same_current = h.same_current;
    same_parity = h.same_parity;
    same_ccs = ap (λ n. n + 1) h.same_ccs;
    few = omega (arith, h.few);
  }

  own_packet-AlikeNext :
      (r : Option (List ℕ)) (k i : ℕ) (p : List ℕ) (s : Batch) (b : Batches)
      → aes_packet csnew search algo aes des aes_decrypt k p ≡ r
      → Alike i s b
      → i + 1 < csnew
      → i + 1 < cs
      → AlikeNext
          (i + 1)
          (own_packet csnew search algo aes des aes_decrypt k i p s)
          (own_in_batch cs search algo aes des aes_decrypt k i p b)
  unfolding own_packet own_in_batch AlikeNext
  own_packet-AlikeNext none k i p s b e h l l' =
      let chosen = select-Alike i k p s b h in
      let kept = at_most-Alike i (i + 1) _ _ (omega arith) chosen in
      rw e (
        if-AlikeNext (i + 1) (algo k == algo_des) _ _ _ _ kept (
          if-AlikeNext (i + 1) (algo k == algo_aes128 || aes k) _ _ _ _ kept
            (collected-AlikeNext csnew cs (i + 1) p _ _ (add_packet-Alike i p _ _ chosen) l l')))
  own_packet-AlikeNext (some p') k i p s b e h l l' =
      let chosen = select-Alike i k p s b h in
      let kept = at_most-Alike i (i + 1) _ _ (omega arith) chosen in
      rw e (
        if-AlikeNext (i + 1) (algo k == algo_des) _ _ _ _ kept (
          if-AlikeNext (i + 1) (algo k == algo_aes128 || aes k) _ _ _ _ kept
            (collected-AlikeNext csnew cs (i + 1) p _ _ (add_packet-Alike i p _ _ chosen) l l')))

  current-AlikeNext :
      (n k : ℕ) (p : List ℕ) (s : Batch) (b : Batches) (x y : Next) (v w : Then)
      → s.current ≡ b.current
      → AlikeNext n x v
      → AlikeNext n y w
      → AlikeNext n
          (if ltb (packet_pid p) max_csa_pid && is_current s.current k then x else y)
          (if ltb (packet_pid p) max_csa_pid && is_current b.current k then v else w)
  current-AlikeNext n k p s b x y v w same own other =
      subst
        (λ c.
          AlikeNext n (if ltb (packet_pid p) max_csa_pid && is_current s.current k then x else y)
            (if ltb (packet_pid p) max_csa_pid && is_current c k then v else w))
        same
        (if-AlikeNext n (ltb (packet_pid p) max_csa_pid && is_current s.current k) x y v w own
          other)

  mapped-AlikeNext :
      (r : Option ℕ) (i : ℕ) (p : List ℕ) (s : Batch) (b : Batches)
      → search (packet_pid p) ≡ r
      → Alike i s b
      → i + 1 < csnew
      → i + 1 < cs
      → AlikeNext
          (i + 1)
          (scrambled_packet csnew search algo aes des aes_decrypt i p s)
          (scrambled_in_batch cs search algo aes des aes_decrypt i p b)
  unfolding scrambled_packet scrambled_in_batch hole AlikeNext
  mapped-AlikeNext none i p s b e h l l' =
      let same : Alike (i + 1) (record s { new_range = true }) b = record {
        same_current = h.same_current;
        same_parity = h.same_parity;
        same_ccs = h.same_ccs;
        few = omega (arith, h.few);
      } in
      rw e (
        if-AlikeNext (i + 1) (ts_packet_get_payload_offset p == 0) _ _ _ _ same
          (if-AlikeNext (i + 1) (i == 0) _ _ _ _ tt same))
  mapped-AlikeNext (some k) i p s b e h l l' =
      let same : Alike (i + 1) (record s { new_range = true }) b = record {
        same_current = h.same_current;
        same_parity = h.same_parity;
        same_ccs = h.same_ccs;
        few = omega (arith, h.few);
      } in
      let own =
        own_packet-AlikeNext (aes_packet csnew search algo aes des aes_decrypt k p) k i p s b refl h
          l l' in
      rw e (
        if-AlikeNext (i + 1) (ts_packet_get_payload_offset p == 0) _ _ _ _ same (
          if-AlikeNext (i + 1) (i == 0 && packet_pid p == max_csa_pid) _ _ _ _ tt
            (current-AlikeNext (i + 1) k p s b _ _ _ _ h.same_current own same)))

  packet_step-AlikeNext :
      (i : ℕ) (p : List ℕ) (s : Batch) (b : Batches)
      → Alike i s b
      → i + 1 < csnew
      → i + 1 < cs
      → AlikeNext
          (i + 1)
          (packet_step csnew search algo aes des aes_decrypt i p s)
          (batch_step cs search algo aes des aes_decrypt i p b)
  unfolding packet_step batch_step AlikeNext
  packet_step-AlikeNext i p s b h l l' =
      let kept = at_most-Alike i (i + 1) s b (omega arith) h in
      if-AlikeNext (i + 1) (not (get_or p 0 0 == 0x47)) _ _ _ _ kept (
        if-AlikeNext (i + 1) (is_scrambled p) _ _ _ _
          (mapped-AlikeNext (search (packet_pid p)) i p s b refl h l l')
          (if-AlikeNext (i + 1) (i == 0) _ _ _ _ tt kept))

  go_on :
      (x : Next) (v : Then) (n i : ℕ) (p : List ℕ) (ps : List (List ℕ)) (s : Batch) (b : Batches)
      → packet_step csnew search algo aes des aes_decrypt i p s ≡ x
      → batch_step cs search algo aes des aes_decrypt i p b ≡ v
      → AlikeNext (i + 1) x v
      → i + 1 ≤ n
      → ((s' : Batch) (b' : Batches)
          → Alike (i + 1) s' b'
          → AlikeEnd n
              (packets csnew search algo aes des aes_decrypt (suc i) ps s')
              (batches cs search algo aes des aes_decrypt (suc i) ps b'))
      → AlikeEnd n
          (packets csnew search algo aes des aes_decrypt i (p ∷ ps) s)
          (batches cs search algo aes des aes_decrypt i (p ∷ ps) b)
  unfolding packets batches AlikeNext AlikeEnd
  go_on (go s' p') (on b' q') n i p ps s b e e' h l later =
      rw (packets, batches, e, e') (AlikeEnd-cons n p' q' _ _ (later s' b' h))
  go_on (stop s' p') (end b' q') n i p ps s b e e' h l later =
      rw (packets, batches, e, e') (at_most-Alike (i + 1) n s' b' l h)
  go_on refuse reject n i p ps s b e e' h l later = rw (packets, batches, e, e') tt
  go_on (go s' p') (end b' q') n i p ps s b e e' h l later = absurd h
  go_on (go s' p') reject n i p ps s b e e' h l later = absurd h
  go_on (stop s' p') (on b' q') n i p ps s b e e' h l later = absurd h
  go_on (stop s' p') reject n i p ps s b e e' h l later = absurd h
  go_on refuse (on b' q') n i p ps s b e e' h l later = absurd h
  go_on refuse (end b' q') n i p ps s b e e' h l later = absurd h

  both_loops :
      (n i : ℕ) (ps : List (List ℕ)) (s : Batch) (b : Batches)
      → Alike i s b
      → i + length ps ≡ n
      → n < csnew
      → n < cs
      → AlikeEnd n
          (packets csnew search algo aes des aes_decrypt i ps s)
          (batches cs search algo aes des aes_decrypt i ps b)
  unfolding packets batches AlikeEnd
  both_loops n i [] s b h e l l' = at_most-Alike i n s b (omega arith) h
  both_loops n i (p ∷ ps) s b h e l l' =
      go_on (packet_step csnew search algo aes des aes_decrypt i p s)
        (batch_step cs search algo aes des aes_decrypt i p b) n i p ps s b refl refl
        (packet_step-AlikeNext i p s b h (omega arith) (omega arith)) (omega arith)
        (λ s' b' h'.
          both_loops n (suc i) ps s' b' (at_most-Alike (i + 1) (suc i) s' b' (omega arith) h')
            (omega arith) l l')

  -- Where a buffer has fewer packets than a cluster of FFdecsa and than a batch of libdvbcsa, which may
  -- differ, the two builds agree on it: the loop of Decrypt with FFdecsa returns false if and only if
  -- that with libdvbcsa does, and otherwise they end with the same key, the same parity and the same
  -- number of packets to decrypt.
  pub packets-batches :
      (ps : List (List ℕ))
      → length ps < csnew
      → length ps < cs
      → AlikeEnd
          (length ps)
          (packets csnew search algo aes des aes_decrypt 0 ps new_batch)
          (batches cs search algo aes des aes_decrypt 0 ps no_batches)
  packets-batches ps l l' =
      both_loops (length ps) 0 ps new_batch no_batches
        (record { same_current = refl; same_parity = refl; same_ccs = refl; few = omega arith })
        (omega arith) l l'
