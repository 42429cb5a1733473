-- ===== src/Descrambler/Batch/Ranges.antt =====
-- The ranges of packets that `Decrypt` gives to FFdecsa: whose packets they hold.
use vdr_plugin_dvbapi.Prelude.{
  ℕ, suc, ◌≤◌, ◌<◌, ◌≡◌, ◌⊎◌, sym, subst, inl, inr, Bool-cases, Bool, true, false, not, ◌&&◌, ◌||◌,
  Option, none, some, List, [], ◌∷◌, ltb, leb, ◌==◌, ==_iff, get_or, if◌then◌else◌, arith,
}
use vdr_plugin_dvbapi.Filter.{max_csa_pid}
use vdr_plugin_dvbapi.Filter.Packets.{packet_pid}
use vdr_plugin_dvbapi.Descrambler.Batch.{Batch, is_scrambled, is_current, extend, add_packet}

-- Whether a packet is in one of the ranges.
unfoldable pub in_ranges : ℕ → List (ℕ × ℕ) → Bool
in_ranges j [] = false
in_ranges j ((a, b) ∷ rs) = (leb a j && ltb j b) || in_ranges j rs

abbrev pub maps_to : Option ℕ → Option ℕ → Bool
maps_to (some a) (some b) = a == b
maps_to _ _ = false

module _ (search : ℕ → Option ℕ) where
  -- A packet that is not scrambled, or belongs to a pid of the index.
  unfoldable pub belongs : Option ℕ → List ℕ → Bool
  belongs cur p =
      not (is_scrambled p)
      || (maps_to (search (packet_pid p)) cur && ltb (packet_pid p) max_csa_pid)

  module _ (all : List (List ℕ)) where
    abbrev pub at : ℕ → List ℕ
    at j = get_or all j []

    -- All packets from one number to another, and all in the ranges.
    abbrev pub Between : Option ℕ → ℕ → ℕ → Type 0
    Between cur a b = (j : ℕ) → a ≤ j → j < b → belongs cur (at j) ≡ true

    abbrev pub InRanges : Option ℕ → List (ℕ × ℕ) → Type 0
    InRanges cur rs = (j : ℕ) → in_ranges j rs ≡ true → belongs cur (at j) ≡ true

    -- While a range is open, also the packets behind it.
    abbrev pub Behind : Option ℕ → ℕ → Bool → List (ℕ × ℕ) → Type 0
    Behind cur i true rs = Unit
    Behind cur i false [] = Unit
    Behind cur i false ((a, b) ∷ rs) = Between cur b i

    -- There is a range only where there is an index.
    abbrev pub Started : Option ℕ → List (ℕ × ℕ) → Type 0
    Started (some k) rs = Unit
    Started none [] = Unit
    Started none (r ∷ rs) = ⊥

    abbrev pub Inv : ℕ → Option ℕ → Bool → List (ℕ × ℕ) → Type 0
    Inv i cur new_range rs = InRanges cur rs × Behind cur i new_range rs × Started cur rs

    extended :
        (j lo hi i : ℕ) (rs : List (ℕ × ℕ))
        → in_ranges j ((lo, suc i) ∷ rs) ≡ true
        → (in_ranges j ((lo, hi) ∷ rs) ≡ true) ⊎ ((hi ≤ j) × (j < suc i))
    unfolding in_ranges
    extended j lo hi i rs e = ground arith

    pub no_ranges : (cur : Option ℕ) → InRanges cur []
    unfolding in_ranges
    no_ranges cur j h = cc h

    Between-next :
        (cur : Option ℕ) (a i : ℕ)
        → Between cur a i
        → belongs cur (at i) ≡ true
        → Between cur a (suc i)
    Between-next cur a i h here j lo hi = elim (split j i hi) [
      | inl before ↦ h j lo before
      | inr same ↦ rw same here
    ]
      where
        split : (j i : ℕ) → j < suc i → (j < i) ⊎ (j ≡ i)
        split j i h = omega arith

    pub Behind-next :
        (cur : Option ℕ) (i : ℕ) (new_range : Bool) (rs : List (ℕ × ℕ))
        → Behind cur i new_range rs
        → belongs cur (at i) ≡ true
        → Behind cur (suc i) new_range rs
    Behind-next cur i true rs h here = tt
    Behind-next cur i false [] h here = tt
    Behind-next cur i false ((a, b) ∷ rs) h here = Between-next cur b i h here

    -- The invariant for the index that a packet selects.
    pub retarget :
        (i : ℕ) (cur : Option ℕ) (k : ℕ) (new_range : Bool) (rs : List (ℕ × ℕ))
        → is_current cur k ≡ true
        → Inv i cur new_range rs
        → Inv i (some k) new_range rs
    retarget i none k true [] e h = (no_ranges (some k), tt, tt)
    retarget i none k false [] e h = (no_ranges (some k), tt, tt)
    retarget i none k new_range (r ∷ rs) e (h, b, s) = absurd s
    retarget i (some c) k new_range rs e (h, b, s) =
        let same : c ≡ k = sym ((==_iff k c).0 e) in
        subst (λ x. Inv i (some x) new_range rs) same (h, b, tt)

    new-InRanges :
        (cur : Option ℕ) (i : ℕ) (rs : List (ℕ × ℕ))
        → belongs cur (at i) ≡ true
        → InRanges cur rs
        → InRanges cur ((i, suc i) ∷ rs)
    unfolding in_ranges
    new-InRanges cur i rs here h j e = elim (Bool-cases (leb i j && ltb j (suc i))) [
      | inl t ↦ let same : j ≡ i = ground arith in rw same here
      | inr f ↦ h j (rw f at e)
    ]

    extend-InRanges :
        (cur : Option ℕ) (i : ℕ) (rs : List (ℕ × ℕ))
        → belongs cur (at i) ≡ true
        → InRanges cur rs
        → Behind cur i false rs
        → InRanges cur (extend i rs)
    unfolding in_ranges
    extend-InRanges cur i [] here h b j e = h j e
    extend-InRanges cur i ((lo, hi) ∷ rs) here h b j e = elim (extended j lo hi i rs e) [
      | inl old ↦ h j old
      | inr (from, to) ↦ Between-next cur hi i b here j from to
    ]

    pub add_packet-Inv :
        (i : ℕ) (s : Batch)
        → belongs s.current (at i) ≡ true
        → Inv i s.current s.new_range s.ranges
        → Started s.current ((i, suc i) ∷ [])
        → Inv (suc i) (add_packet i s).current (add_packet i s).new_range (add_packet i s).ranges
    unfolding add_packet
    add_packet-Inv i s here (h, b, st) started =
        by_range s.current s.new_range s.ranges here h b st started
      where
        by_range :
            (cur : Option ℕ) (new_range : Bool) (rs : List (ℕ × ℕ))
            → belongs cur (at i) ≡ true
            → InRanges cur rs
            → Behind cur i new_range rs
            → Started cur rs
            → Started cur ((i, suc i) ∷ [])
            → Inv (suc i) cur false (if new_range then (i, suc i) ∷ rs else extend i rs)
        by_range none new_range rs here h b st started = absurd started
        by_range (some c) true rs here h b st started =
            (new-InRanges (some c) i rs here h, λ j lo hi. absurd (omega arith), tt)
        by_range (some c) false [] here h b st started =
            (extend-InRanges (some c) i [] here h b, tt, tt)
        by_range (some c) false ((lo, hi) ∷ rs) here h b st started = (
          extend-InRanges (some c) i ((lo, hi) ∷ rs) here h b,
          λ j lo hi. absurd (omega arith),
          tt,
        )
