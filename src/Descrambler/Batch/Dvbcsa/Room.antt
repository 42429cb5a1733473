-- ===== src/Descrambler/Batch/Dvbcsa/Room.antt =====
-- The arrays of the batches, which have one element more than a batch may have packets.
use vdr_plugin_dvbapi.Prelude.{
  ℕ, suc, ◌+◌, ◌≤◌, ◌<◌, ◌≡◌, refl, subst, Bool, true, false, not, ◌&&◌, ◌||◌, Option, none, some,
  List, [], ◌∷◌, length, length-append, ltb, leb, ◌==◌, get_or, if◌then◌else◌, arith,
}
use vdr_plugin_dvbapi.Filter.{max_csa_pid}
use vdr_plugin_dvbapi.Filter.Packets.{packet_pid}
use vdr_plugin_dvbapi.Descrambler.{ts_packet_get_payload_offset}
use vdr_plugin_dvbapi.Descrambler.Keys.{algo_des, algo_aes128}
use vdr_plugin_dvbapi.Descrambler.Batch.{is_scrambled, is_current, aes_packet}
use vdr_plugin_dvbapi.Descrambler.Batch.Dvbcsa.{
  Batches, no_batches, Then, on, end, reject, own_in_batch, scrambled_in_batch, batch_step, batches,
  batch_packet, choose,
}

-- The packets are counted.
abbrev pub IsCounted : Batches → Type 0
IsCounted b = length b.even + length b.odd ≡ b.ccs

batch_packet-IsCounted :
    (i : ℕ) (p : List ℕ) (b : Batches) → IsCounted b → IsCounted (batch_packet i p b)
unfolding batch_packet
batch_packet-IsCounted i p b h =
    let entry : ℕ × ℕ = (i, ts_packet_get_payload_offset p) in
    ground (arith, length-append b.even (entry ∷ []), length-append b.odd (entry ∷ []))

-- A step leaves room for one packet more, or ends the loop.
unfoldable HasRoom : ℕ → Then → Type 0
HasRoom cs (on b p) = IsCounted b × (b.ccs < cs)
HasRoom cs (end b p) = IsCounted b × (b.ccs ≤ cs)
HasRoom cs reject = Unit

if-HasRoom :
    (cs : ℕ) (c : Bool) (x y : Then)
    → (c ≡ true → HasRoom cs x)
    → (c ≡ false → HasRoom cs y)
    → HasRoom cs (if c then x else y)
if-HasRoom cs true x y h g = h refl
if-HasRoom cs false x y h g = g refl

aes-HasRoom :
    (cs : ℕ) (r : Option (List ℕ)) (b : Batches) (p : List ℕ)
    → IsCounted b × (b.ccs < cs)
    → HasRoom cs (elim r as (λ _. Then) [ none ↦ on b p | some p' ↦ on b p' ])
unfolding HasRoom
aes-HasRoom cs none b p h = h
aes-HasRoom cs (some p') b p h = h

module _ (cs : ℕ) (search : ℕ → Option ℕ) (algo : ℕ → ℕ) (aes : ℕ → Bool)
    (des : ℕ → Bool → List ℕ → List ℕ) (aes_decrypt : ℕ → Bool → List ℕ → Option (List ℕ)) where
  own_in_batch-HasRoom :
      (k i : ℕ) (p : List ℕ) (b : Batches)
      → IsCounted b × (b.ccs < cs)
      → HasRoom cs (own_in_batch cs search algo aes des aes_decrypt k i p b)
  unfolding own_in_batch HasRoom batch_packet
  own_in_batch-HasRoom k i p b (counted, room) =
      let b' = choose cs search algo aes des aes_decrypt k p b in
      let more = batch_packet-IsCounted i p b' counted in
      if-HasRoom cs (algo k == algo_des) _ _ (λ d. (counted, room))
        (λ d.
          if-HasRoom cs (algo k == algo_aes128 || aes k) _ _
            (λ a.
              aes-HasRoom cs (aes_packet cs search algo aes des aes_decrypt k p) b' p
                (counted, room))
            (λ a.
              if-HasRoom cs (leb cs (b.ccs + 1)) _ _ (λ full. (more, ground arith))
                (λ left. (more, ground arith))))

  scrambled-HasRoom :
      (r : Option ℕ) (i : ℕ) (p : List ℕ) (b : Batches)
      → search (packet_pid p) ≡ r
      → IsCounted b × (b.ccs < cs)
      → HasRoom cs (scrambled_in_batch cs search algo aes des aes_decrypt i p b)
  unfolding scrambled_in_batch HasRoom
  scrambled-HasRoom none i p b e h = rw e (
      if-HasRoom cs (ts_packet_get_payload_offset p == 0) _ _ (λ z. h)
        (λ z. if-HasRoom cs (i == 0) _ _ (λ f. tt) (λ f. h)))
  scrambled-HasRoom (some k) i p b e h = rw e (
      if-HasRoom cs (ts_packet_get_payload_offset p == 0) _ _ (λ z. h)
        (λ z.
          if-HasRoom cs (i == 0 && packet_pid p == max_csa_pid) _ _ (λ f. tt)
            (λ f.
              if-HasRoom cs (ltb (packet_pid p) max_csa_pid && is_current b.current k) _ _
                (λ own. own_in_batch-HasRoom k i p b h) (λ other. h))))

  batch_step-HasRoom :
      (i : ℕ) (p : List ℕ) (b : Batches)
      → IsCounted b × (b.ccs < cs)
      → HasRoom cs (batch_step cs search algo aes des aes_decrypt i p b)
  unfolding batch_step HasRoom
  batch_step-HasRoom i p b (counted, room) =
      if-HasRoom cs (not (get_or p 0 0 == 0x47)) _ _ (λ e. (counted, omega arith))
        (λ e.
          if-HasRoom cs (is_scrambled p) _ _
            (λ s. scrambled-HasRoom (search (packet_pid p)) i p b refl (counted, room))
            (λ s. if-HasRoom cs (i == 0) _ _ (λ f. tt) (λ f. (counted, room))))

  -- What the loop ends with.
  abbrev Ended : Option (Batches × List (List ℕ)) → Type 0
  Ended none = Unit
  Ended (some (b, qs)) = IsCounted b × (b.ccs ≤ cs)

  with_packet :
      (q : List ℕ) (r : Option (Batches × List (List ℕ)))
      → Ended r
      → Ended (elim r as (λ _. Option (Batches × List (List ℕ))) [
        | none ↦ none
        | some (b, qs) ↦ some (b, q ∷ qs)
      ])
  with_packet q none h = tt
  with_packet q (some (b, qs)) h = h

  next_Ended :
      (x : Then) (i : ℕ) (p : List ℕ) (ps : List (List ℕ)) (b : Batches)
      → batch_step cs search algo aes des aes_decrypt i p b ≡ x
      → HasRoom cs x
      → ((b' : Batches)
          → IsCounted b' × (b'.ccs < cs)
          → Ended (batches cs search algo aes des aes_decrypt (suc i) ps b'))
      → Ended (batches cs search algo aes des aes_decrypt i (p ∷ ps) b)
  unfolding batches HasRoom
  next_Ended (on b' q) i p ps b e h later = rw (batches, e) (with_packet q _ (later b' h))
  next_Ended (end b' q) i p ps b e h later = rw (batches, e) h
  next_Ended reject i p ps b e h later = rw (batches, e) tt

  loop-Ended :
      (i : ℕ) (ps : List (List ℕ)) (b : Batches)
      → IsCounted b × (b.ccs < cs)
      → Ended (batches cs search algo aes des aes_decrypt i ps b)
  unfolding batches
  loop-Ended i [] b (counted, room) = (counted, omega arith)
  loop-Ended i (p ∷ ps) b h =
      next_Ended (batch_step cs search algo aes des aes_decrypt i p b) i p ps b refl
        (batch_step-HasRoom i p b h) (λ b' h'. loop-Ended (suc i) ps b' h')

  -- With a batch size that is not 0, the two batches of Decrypt together never have more packets than the
  -- size: the arrays have room for them and for the end mark.
  pub length-batches :
      (ps : List (List ℕ)) (b : Batches) (qs : List (List ℕ))
      → 0 < cs
      → batches cs search algo aes des aes_decrypt 0 ps no_batches ≡ some (b, qs)
      → length b.even + length b.odd ≤ cs
  length-batches ps b qs room e =
      let (counted, fits) : Ended (some (b, qs)) =
        subst Ended e (loop-Ended 0 ps no_batches (refl, room)) in
      omega (arith, counted)
