-- ===== src/Descrambler/Batch/Safety.antt =====
-- The loop of `Decrypt` over the packets: whose packets its ranges hold in the end.
use vdr_plugin_dvbapi.Prelude.{
  ℕ, suc, ◌≡◌, refl, subst, inl, inr, Option-cases, Bool, true, false, not, ◌&&◌, ◌||◌, Option,
  none, some, List, [], ltb, leb, ◌==◌, ==_iff, get_or, arith,
}
use vdr_plugin_dvbapi.Filter.{max_csa_pid}
use vdr_plugin_dvbapi.Filter.Packets.{packet_pid}
use vdr_plugin_dvbapi.Descrambler.{ts_packet_get_payload_offset}
use vdr_plugin_dvbapi.Descrambler.Keys.{algo_des, algo_aes128}
use vdr_plugin_dvbapi.Descrambler.Batch.{
  Batch, new_batch, Next, go, is_scrambled, is_current, add_packet, own_packet, hole,
  scrambled_packet, packet_step, packets, aes_packet, select,
}
use vdr_plugin_dvbapi.Descrambler.Batch.Loop.{After, if-After, Ends, packets-Ends}
use vdr_plugin_dvbapi.Descrambler.Batch.Ranges.{
  in_ranges, belongs, at, InRanges, Inv, Behind-next, retarget, no_ranges, add_packet-Inv,
}

-- What `is_scrambled` and the pid map say of a packet.
clear_belongs :
    (search : ℕ → Option ℕ) (cur : Option ℕ) (p : List ℕ)
    → is_scrambled p ≡ false
    → belongs search cur p ≡ true
unfolding belongs
clear_belongs search cur p e = rw e refl

mapped_belongs :
    (search : ℕ → Option ℕ) (k : ℕ) (p : List ℕ)
    → search (packet_pid p) ≡ some k
    → ltb (packet_pid p) max_csa_pid ≡ true
    → belongs search (some k) p ≡ true
unfolding belongs
mapped_belongs search k p e lt = rw (e, lt, (==_iff k k).1 refl) (ground arith)

and-split : (a b : Bool) → a && b ≡ true → (a ≡ true) × (b ≡ true)
and-split a b e = ground arith

module _ (csnew : ℕ) (search : ℕ → Option ℕ) (algo : ℕ → ℕ) (aes : ℕ → Bool)
    (des : ℕ → Bool → List ℕ → List ℕ) (aes_decrypt : ℕ → Bool → List ℕ → Option (List ℕ))
    (all : List (List ℕ)) where
  abbrev Open : ℕ → Batch → Type 0
  Open i s = Inv search all i s.current s.new_range s.ranges

  abbrev Sound : Batch → Type 0
  Sound s = InRanges search all s.current s.ranges

  abbrev Here : ℕ → Next → Type 0
  Here i r = After Open Sound i r

  skip-Inv :
      (i : ℕ) (s : Batch)
      → belongs search s.current (at search all i) ≡ true
      → Inv search all i s.current s.new_range s.ranges
      → Inv search all (suc i) s.current s.new_range s.ranges
  skip-Inv i s here (h, b, st) =
      (h, Behind-next search all s.current i s.new_range s.ranges b here, st)

  -- AES decryption leaves the packet or replaces it; the ranges stay.
  aes-After :
      (i : ℕ) (s : Batch) (p : List ℕ) (r : Option (List ℕ))
      → Inv search all (suc i) s.current s.new_range s.ranges
      → Here i (elim r as (λ _. Next) [ none ↦ go s p | some p' ↦ go s p' ])
  aes-After i s p none inv = inv
  aes-After i s p (some p') inv = inv

  own_packet-After :
      (k i : ℕ) (p : List ℕ) (s : Batch)
      → belongs search (some k) (at search all i) ≡ true
      → is_current s.current k ≡ true
      → Inv search all i s.current s.new_range s.ranges
      → Here i (own_packet csnew search algo aes des aes_decrypt k i p s)
  unfolding own_packet
  own_packet-After k i p s here same inv =
      let inv' = retarget search all i s.current k s.new_range s.ranges same inv in
      let s' = select csnew search algo aes des aes_decrypt k p s in
      let kept = skip-Inv i s' here inv' in
      let added = add_packet-Inv search all i s' here inv' tt in
      if-After Open Sound i (algo k == algo_des) _ _ (λ _. kept)
        (λ _.
          if-After Open Sound i (algo k == algo_aes128 || aes k) _ _
            (λ _. aes-After i s' p (aes_packet csnew search algo aes des aes_decrypt k p) kept)
            (λ _.
              if-After Open Sound i (leb csnew (add_packet i s').ccs) _ _ (λ _. added.0)
                (λ _. added)))

  -- A hole: the open range ends.
  hole-After :
      (i : ℕ) (p : List ℕ) (s : Batch)
      → Inv search all i s.current s.new_range s.ranges
      → Here i (go (hole csnew search algo aes des aes_decrypt s) p)
  unfolding hole
  hole-After i p s (h, b, st) = (h, tt, st)

  scrambled_packet-After :
      (i : ℕ) (s : Batch)
      → Inv search all i s.current s.new_range s.ranges
      → Here i (scrambled_packet csnew search algo aes des aes_decrypt i (at search all i) s)
  unfolding scrambled_packet
  scrambled_packet-After i s inv =
      let p = at search all i in
      let ended = hole-After i p s inv in
      if-After Open Sound i (ts_packet_get_payload_offset p == 0) _ _ (λ _. ended)
        (λ _. elim (Option-cases (search (packet_pid p))) [
          | inl e ↦ rw e (if-After Open Sound i (i == 0) _ _ (λ _. tt) (λ _. ended))
          | inr (k, e) ↦ rw e (
              if-After Open Sound i (i == 0 && packet_pid p == max_csa_pid) _ _ (λ _. tt)
                (λ _.
                  if-After Open Sound i (ltb (packet_pid p) max_csa_pid && is_current s.current k) _
                    _
                    (λ both.
                      let (lt, same) = and-split (ltb (packet_pid p) max_csa_pid) _ both in
                      own_packet-After k i p s (mapped_belongs search k p e lt) same inv)
                    (λ _. ended)))
        ])

  packet_step-After :
      (i : ℕ) (s : Batch)
      → Inv search all i s.current s.new_range s.ranges
      → Here i (packet_step csnew search algo aes des aes_decrypt i (at search all i) s)
  unfolding packet_step
  packet_step-After i s inv =
      let p = at search all i in
      if-After Open Sound i (not (get_or p 0 0 == 0x47)) _ _ (λ _. inv.0)
        (λ _.
          if-After Open Sound i (is_scrambled p) _ _ (λ _. scrambled_packet-After i s inv)
            (λ clear.
              if-After Open Sound i (i == 0) _ _ (λ _. tt)
                (λ _. skip-Inv i s (clear_belongs search s.current p clear) inv)))

-- Where the loop over the packets of a buffer ends, a packet in its ranges is not scrambled, or its
-- pid is below 0x1FFF and mapped to the index of the batch.
pub packets-in_ranges :
    (csnew : ℕ) (search : ℕ → Option ℕ) (algo : ℕ → ℕ) (aes : ℕ → Bool)
    (des : ℕ → Bool → List ℕ → List ℕ) (aes_decrypt : ℕ → Bool → List ℕ → Option (List ℕ))
    (all out : List (List ℕ)) (s : Batch) (j : ℕ)
    → packets csnew search algo aes des aes_decrypt 0 all new_batch ≡ some (s, out)
    → in_ranges j s.ranges ≡ true
    → belongs search s.current (get_or all j []) ≡ true
packets-in_ranges csnew search algo aes des aes_decrypt all out s j e member =
    subst
      (Ends (Open csnew search algo aes des aes_decrypt all)
        (Sound csnew search algo aes des aes_decrypt all))
      e
      (packets-Ends csnew search algo aes des aes_decrypt all
        (Open csnew search algo aes des aes_decrypt all)
        (Sound csnew search algo aes des aes_decrypt all) (λ i t inv. inv.0)
        (packet_step-After csnew search algo aes des aes_decrypt all) all 0 new_batch refl
        (no_ranges search all none, tt, tt))
      j member
