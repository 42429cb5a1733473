-- ===== src/Descrambler/Batch/Agree.antt =====
-- The loop of Decrypt looks only at the keys of the indices that the pid map gives.
use vdr_plugin_dvbapi.Prelude.{ℕ, suc, ◌≡◌, refl, Bool, Option, none, some, List, [], ◌∷◌}
use vdr_plugin_dvbapi.Filter.Packets.{packet_pid}
use vdr_plugin_dvbapi.Descrambler.Batch.{
  Batch, Next, go, stop, refuse, own_packet, scrambled_packet, packet_step, packets, hole,
  des_packet, aes_packet,
}

-- Two views of the keys.
module _ (csnew : ℕ) (search : ℕ → Option ℕ) (algo algo' : ℕ → ℕ) (aes aes' : ℕ → Bool)
    (des des' : ℕ → Bool → List ℕ → List ℕ)
    (aes_decrypt aes_decrypt' : ℕ → Bool → List ℕ → Option (List ℕ)) where
  -- They show the same key at an index.
  pub record SameKey (k : ℕ) : Type 0 where
    pub same_algo : algo k ≡ algo' k
    pub same_aes : aes k ≡ aes' k
    pub same_des : des k ≡ des' k
    pub same_aes_decrypt : aes_decrypt k ≡ aes_decrypt' k

  own_packet-SameKey :
      (k i : ℕ) (p : List ℕ) (s : Batch)
      → SameKey k
      → own_packet csnew search algo aes des aes_decrypt k i p s
        ≡ own_packet csnew search algo' aes' des' aes_decrypt' k i p s
  unfolding own_packet des_packet aes_packet
  own_packet-SameKey k i p s h = rw (h.same_algo, h.same_aes, h.same_des, h.same_aes_decrypt) refl

  abbrev Mapped : Type 0
  Mapped = (pid k : ℕ) → search pid ≡ some k → SameKey k

  scrambled_by :
      (r : Option ℕ) (i : ℕ) (p : List ℕ) (s : Batch)
      → search (packet_pid p) ≡ r
      → Mapped
      → scrambled_packet csnew search algo aes des aes_decrypt i p s
        ≡ scrambled_packet csnew search algo' aes' des' aes_decrypt' i p s
  unfolding scrambled_packet hole
  scrambled_by none i p s e h = rw e refl
  scrambled_by (some k) i p s e h = rw (e, own_packet-SameKey k i p s (h (packet_pid p) k e)) refl

  scrambled_packet-Mapped :
      (i : ℕ) (p : List ℕ) (s : Batch)
      → Mapped
      → scrambled_packet csnew search algo aes des aes_decrypt i p s
        ≡ scrambled_packet csnew search algo' aes' des' aes_decrypt' i p s
  scrambled_packet-Mapped i p s h = scrambled_by (search (packet_pid p)) i p s refl h

  packet_step-Mapped :
      (i : ℕ) (p : List ℕ) (s : Batch)
      → Mapped
      → packet_step csnew search algo aes des aes_decrypt i p s
        ≡ packet_step csnew search algo' aes' des' aes_decrypt' i p s
  unfolding packet_step
  packet_step-Mapped i p s h = rw (scrambled_packet-Mapped i p s h) refl

  packets_by :
      (r : Next) (i : ℕ) (p : List ℕ) (ps : List (List ℕ)) (s : Batch)
      → packet_step csnew search algo aes des aes_decrypt i p s ≡ r
      → packet_step csnew search algo' aes' des' aes_decrypt' i p s ≡ r
      → ((s' : Batch)
          → packets csnew search algo aes des aes_decrypt (suc i) ps s'
            ≡ packets csnew search algo' aes' des' aes_decrypt' (suc i) ps s')
      → packets csnew search algo aes des aes_decrypt i (p ∷ ps) s
        ≡ packets csnew search algo' aes' des' aes_decrypt' i (p ∷ ps) s
  unfolding packets
  packets_by refuse i p ps s e e' later = rw (packets, e, e') refl
  packets_by (stop s' p') i p ps s e e' later = rw (packets, e, e') refl
  packets_by (go s' p') i p ps s e e' later = rw (packets, e, e', later s') refl

  -- Where the keys that the pid map gives are the same, so is what the loop does.
  pub packets-Mapped :
      (i : ℕ) (ps : List (List ℕ)) (s : Batch)
      → ((pid k : ℕ) → search pid ≡ some k → SameKey k)
      → packets csnew search algo aes des aes_decrypt i ps s
        ≡ packets csnew search algo' aes' des' aes_decrypt' i ps s
  unfolding packets
  packets-Mapped i [] s h = refl
  packets-Mapped i (p ∷ ps) s h =
      packets_by (packet_step csnew search algo' aes' des' aes_decrypt' i p s) i p ps s
        (packet_step-Mapped i p s h) refl (λ s'. packets-Mapped (suc i) ps s' h)
