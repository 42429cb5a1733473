-- ===== src/Descrambler/Batch/Bounds.antt =====
-- The loop of `Decrypt` over the packets: its array of ranges does not overflow.
use vdr_plugin_dvbapi.Prelude.{
  ℕ, suc, ◌+◌, ◌*◌, ◌≤◌, ◌<◌, ◌≡◌, refl, subst, Bool-cases, Option-cases, inl, inr, Bool, not, ◌&&◌,
  ◌||◌, Option, none, some, List, [], ◌∷◌, length, leb, ltb, ◌==◌, get_or, if◌then◌else◌, arith,
}
use vdr_plugin_dvbapi.Filter.{max_csa_pid}
use vdr_plugin_dvbapi.Filter.Packets.{packet_pid}
use vdr_plugin_dvbapi.Descrambler.{ts_packet_get_payload_offset}
use vdr_plugin_dvbapi.Descrambler.Keys.{algo_des, algo_aes128}
use vdr_plugin_dvbapi.Descrambler.Batch.{
  Batch, new_batch, Next, go, is_scrambled, is_current, extend, add_packet, own_packet, hole,
  scrambled_packet, packet_step, packets, aes_packet, select,
}
use vdr_plugin_dvbapi.Descrambler.Batch.Loop.{After, if-After, Ends, packets-Ends}

length-extend : (i : ℕ) (rs : List (ℕ × ℕ)) → length (extend i rs) ≡ length rs
length-extend i [] = refl
length-extend i (r ∷ rs) = refl

length-add_packet : (i : ℕ) (s : Batch) → length (add_packet i s).ranges ≤ length s.ranges + 1
unfolding add_packet
length-add_packet i s = elim (Bool-cases s.new_range) [
  | inl e ↦ rw e (omega arith)
  | inr e ↦ rw (e, length-extend i s.ranges) (omega arith)
]

module _ (csnew : ℕ) (search : ℕ → Option ℕ) (algo : ℕ → ℕ) (aes : ℕ → Bool)
    (des : ℕ → Bool → List ℕ → List ℕ) (aes_decrypt : ℕ → Bool → List ℕ → Option (List ℕ))
    (all : List (List ℕ)) where
  -- Before a packet each range has a packet of its own, and there is room for one more.
  abbrev Open : ℕ → Batch → Type 0
  Open i s = (length s.ranges ≤ s.ccs) × (s.ccs < csnew)

  abbrev Bounded : Batch → Type 0
  Bounded s = length s.ranges ≤ csnew

  abbrev Here : ℕ → Next → Type 0
  Here i r = After Open Bounded i r

  aes-After :
      (i : ℕ) (s : Batch) (p : List ℕ) (r : Option (List ℕ))
      → Open (suc i) s
      → Here i (elim r as (λ _. Next) [ none ↦ go s p | some p' ↦ go s p' ])
  aes-After i s p none inv = inv
  aes-After i s p (some p') inv = inv

  added-After :
      (i : ℕ) (s : Batch) (p : List ℕ)
      → Open i s
      → Here i (
          if leb csnew (add_packet i s).ccs
          then Next.stop (add_packet i s) p
          else go (add_packet i s) p)
  unfolding add_packet
  added-After i s p inv =
      let more = length-add_packet i s in
      if-After Open Bounded i (leb csnew (s.ccs + 1)) _ _ (λ e. omega arith)
        (λ e. (omega arith, ground arith))

  own_packet-After :
      (k i : ℕ) (p : List ℕ) (s : Batch)
      → Open i s
      → Here i (own_packet csnew search algo aes des aes_decrypt k i p s)
  unfolding own_packet
  own_packet-After k i p s inv =
      let s' = select csnew search algo aes des aes_decrypt k p s in
      if-After Open Bounded i (algo k == algo_des) _ _ (λ _. inv)
        (λ _.
          if-After Open Bounded i (algo k == algo_aes128 || aes k) _ _
            (λ _. aes-After i s' p (aes_packet csnew search algo aes des aes_decrypt k p) inv)
            (λ _. added-After i s' p inv))

  hole-After :
      (i : ℕ) (p : List ℕ) (s : Batch)
      → Open i s
      → Here i (go (hole csnew search algo aes des aes_decrypt s) p)
  unfolding hole
  hole-After i p s inv = inv

  scrambled_packet-After :
      (i : ℕ) (p : List ℕ) (s : Batch)
      → Open i s
      → Here i (scrambled_packet csnew search algo aes des aes_decrypt i p s)
  unfolding scrambled_packet
  scrambled_packet-After i p s inv =
      let ended = hole-After i p s inv in
      if-After Open Bounded i (ts_packet_get_payload_offset p == 0) _ _ (λ _. ended)
        (λ _. elim (Option-cases (search (packet_pid p))) [
          | inl e ↦ rw e (if-After Open Bounded i (i == 0) _ _ (λ _. tt) (λ _. ended))
          | inr (k, e) ↦ rw e (
              if-After Open Bounded i (i == 0 && packet_pid p == max_csa_pid) _ _ (λ _. tt)
                (λ _.
                  if-After Open Bounded i (ltb (packet_pid p) max_csa_pid && is_current s.current k)
                    _ _ (λ _. own_packet-After k i p s inv) (λ _. ended)))
        ])

  packet_step-After :
      (i : ℕ) (s : Batch)
      → Open i s
      → Here i (packet_step csnew search algo aes des aes_decrypt i (get_or all i []) s)
  unfolding packet_step
  packet_step-After i s inv =
      let p = get_or all i [] in
      if-After Open Bounded i (not (get_or p 0 0 == 0x47)) _ _ (λ _. omega arith)
        (λ _.
          if-After Open Bounded i (is_scrambled p) _ _ (λ _. scrambled_packet-After i p s inv)
            (λ _. if-After Open Bounded i (i == 0) _ _ (λ _. tt) (λ _. inv)))

-- For a cluster of at least one packet, the loop over any buffer leaves at most as many ranges as
-- the cluster has packets, so the null behind the last of them stays within the csnew * 2 + 5
-- pointers of rangenew.
length-packets :
    (csnew : ℕ) (search : ℕ → Option ℕ) (algo : ℕ → ℕ) (aes : ℕ → Bool)
    (des : ℕ → Bool → List ℕ → List ℕ) (aes_decrypt : ℕ → Bool → List ℕ → Option (List ℕ))
    (all out : List (List ℕ)) (s : Batch)
    → 0 < csnew
    → packets csnew search algo aes des aes_decrypt 0 all new_batch ≡ some (s, out)
    → (length s.ranges ≤ csnew) × (length s.ranges * 2 < csnew * 2 + 5)
length-packets csnew search algo aes des aes_decrypt all out s some_room e =
    let bounded : length s.ranges ≤ csnew =
      subst
        (Ends (Open csnew search algo aes des aes_decrypt all)
          (Bounded csnew search algo aes des aes_decrypt all))
        e
        (packets-Ends csnew search algo aes des aes_decrypt all
          (Open csnew search algo aes des aes_decrypt all)
          (Bounded csnew search algo aes des aes_decrypt all) (λ i t inv. omega arith)
          (packet_step-After csnew search algo aes des aes_decrypt all) all 0 new_batch refl
          (omega arith, some_room)) in
    (bounded, omega arith)
