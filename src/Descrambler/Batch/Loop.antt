-- ===== src/Descrambler/Batch/Loop.antt =====
-- The loop of `Decrypt` over the packets: induction over its rounds.
use vdr_plugin_dvbapi.Prelude.{
  ℕ, zero, suc, ◌≡◌, refl, subst, Bool, true, false, Option, none, some, List, [], ◌∷◌, get_or,
  drop, if◌then◌else◌,
}
use vdr_plugin_dvbapi.Descrambler.Batch.{Batch, Next, go, stop, refuse, packet_step, packets}

drop_split :
    (i : ℕ) (all : List (List ℕ)) (p : List ℕ) (ps : List (List ℕ))
    → drop i all ≡ p ∷ ps
    → (get_or all i [] ≡ p) × (drop (suc i) all ≡ ps)
drop_split zero [] p ps e = cc e
drop_split (suc i) [] p ps e = cc e
drop_split zero (x ∷ xs) p ps e = (cc e, cc e)
drop_split (suc i) (x ∷ xs) p ps e = drop_split i xs p ps e

-- What holds before the packet `i`, and at the end.
module _ (I : ℕ → Batch → Type 0) (F : Batch → Type 0) where
  -- What the packet `i` makes hold.
  abbrev pub After : ℕ → Next → Type 0
  After i (go s p) = I (suc i) s
  After i (stop s p) = F s
  After i refuse = Unit

  pub if-After :
      (i : ℕ) (b : Bool) (x y : Next)
      → (b ≡ true → After i x)
      → (b ≡ false → After i y)
      → After i (if b then x else y)
  if-After i true x y h g = h refl
  if-After i false x y h g = g refl

  abbrev pub Ends : Option (Batch × List (List ℕ)) → Type 0
  Ends none = Unit
  Ends (some (s, out)) = F s

  -- The rest of the loop, where it goes on.
  abbrev rest : List ℕ → Option (Batch × List (List ℕ)) → Option (Batch × List (List ℕ))
  rest p' none = none
  rest p' (some (s, ps)) = some (s, p' ∷ ps)

  rest-Ends : (p' : List ℕ) (r : Option (Batch × List (List ℕ))) → Ends r → Ends (rest p' r)
  rest-Ends p' none h = tt
  rest-Ends p' (some (s, ps)) h = h

module _ (csnew : ℕ) (search : ℕ → Option ℕ) (algo : ℕ → ℕ) (aes : ℕ → Bool)
    (des : ℕ → Bool → List ℕ → List ℕ) (aes_decrypt : ℕ → Bool → List ℕ → Option (List ℕ))
    (all : List (List ℕ)) (I : ℕ → Batch → Type 0) (F : Batch → Type 0)
    (end : (i : ℕ) (s : Batch) → I i s → F s)
    (step : (i : ℕ) (s : Batch)
      → I i s
      → After I F i (packet_step csnew search algo aes des aes_decrypt i (get_or all i []) s)) where
  pub packets-Ends :
      (ps : List (List ℕ)) (i : ℕ) (s : Batch)
      → drop i all ≡ ps
      → I i s
      → Ends I F (packets csnew search algo aes des aes_decrypt i ps s)
  unfolding packets
  packets-Ends [] i s here inv = end i s inv
  packets-Ends (p ∷ ps) i s here inv =
      let (head, tail) = drop_split i all p ps here in
      by_next (packet_step csnew search algo aes des aes_decrypt i p s)
        (subst (λ x. After I F i (packet_step csnew search algo aes des aes_decrypt i x s)) head
          (step i s inv))
        (λ s'. packets-Ends ps (suc i) s' tail)
    where
      by_next :
          (r : Next)
          → After I F i r
          → ((s' : Batch)
              → I (suc i) s'
              → Ends I F (packets csnew search algo aes des aes_decrypt (suc i) ps s'))
          → Ends I F (elim r as (λ _. Option (Batch × List (List ℕ))) [
            | refuse ↦ none
            | stop s' p' ↦ some (s', p' ∷ ps)
            | go s' p' ↦
                elim (packets csnew search algo aes des aes_decrypt (suc i) ps s')
                  as (λ _. Option (Batch × List (List ℕ))) [
                    | none ↦ none
                    | some (s'', ps') ↦ some (s'', p' ∷ ps')
                  ]
          ])
      by_next refuse h k = tt
      by_next (stop s' p') h k = h
      by_next (go s' p') h k = rest-Ends I F p' _ (k s' h)
