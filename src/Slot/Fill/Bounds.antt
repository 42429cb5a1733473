-- ===== src/Slot/Fill/Bounds.antt =====
-- The low-water mark of `DeCSAFillControl`: its bounds, and the filter as a median.
use vdr_plugin_dvbapi.Prelude.{
  ℕ, ◌+◌, ◌-◌, min, max, ◌≤◌, ◌<◌, ◌≡◌, ◌⊎◌, refl, ap, inl, inr, Option, none, some, arith,
}
use vdr_plugin_dvbapi.Slot.Fill.{
  Phase, ready, sleep, wrap, Limits, Fill, min_water_mark, sleep_interval, filtered, clamped,
  new_mark, reset_fill, when_ready, when_asleep, when_wrapped, can_process, in_phase,
}

pub Phase-cases : (p : Phase) → (p ≡ ready) ⊎ ((p ≡ sleep) ⊎ (p ≡ wrap))
Phase-cases ready = inl refl
Phase-cases sleep = inr (inl refl)
Phase-cases wrap = inr (inr refl)

module _ (l : Limits) (address count : ℕ) (s : Fill) where
  pub can_process-ready :
      s.phase ≡ ready → can_process l address count s ≡ when_ready l address count s
  unfolding can_process in_phase
  can_process-ready e = ap (λ p. in_phase l p address count s) e

  pub can_process-sleep :
      s.phase ≡ sleep → can_process l address count s ≡ when_asleep l address count s
  unfolding can_process in_phase
  can_process-sleep e = ap (λ p. in_phase l p address count s) e

  pub can_process-wrap :
      s.phase ≡ wrap → can_process l address count s ≡ when_wrapped l address count s
  unfolding can_process in_phase
  can_process-wrap e = ap (λ p. in_phase l p address count s) e

-- With both taps, Filter gives the median: the three numbers without the largest and the smallest.
filtered-median :
    (a b c : ℕ) → filtered a (some b) (some c) + max (max a b) c + min (min a b) c ≡ a + b + c
unfolding filtered
filtered-median a b c = omega arith

module _ (l : Limits) where
  abbrev pub IsMark : ℕ → Type 0
  IsMark n = (min_water_mark ≤ n) × (n ≤ l.max_water_mark)

  abbrev pub IsTap : Option ℕ → Type 0
  IsTap none = Unit
  IsTap (some n) = IsMark n

  abbrev pub IsTimed : Phase → ℕ → Type 0
  IsTimed sleep t = t < l.timeout
  IsTimed _ t = Unit

  abbrev pub IsFill : Fill → Type 0
  IsFill s = IsMark s.low_water_mark × (IsTap s.tap1 × IsTap s.tap2) × IsTimed s.phase s.time_slept

module _ (l : Limits) (roomy : min_water_mark ≤ l.max_water_mark) (patient : 0 < l.timeout) where
  clamped-IsMark : (n : ℕ) → IsMark l (clamped l n)
  unfolding clamped
  clamped-IsMark n = ground arith

  filtered-IsMark :
      (n : ℕ) (t1 t2 : Option ℕ)
      → IsMark l n
      → IsTap l t1
      → IsTap l t2
      → IsMark l (filtered n t1 t2)
  unfolding filtered
  filtered-IsMark n none t2 h h1 h2 = h
  filtered-IsMark n (some a) none h h1 h2 = h
  filtered-IsMark n (some a) (some b) h h1 h2 = (omega arith, omega arith)

  new_mark-IsFill :
      (count : ℕ) (s : Fill) → IsTap l s.tap1 → IsTap l s.tap2 → IsFill l (new_mark l count s)
  unfolding new_mark
  new_mark-IsFill count s h1 h2 =
      let mark = clamped-IsMark (count - s.last_count) in
      (filtered-IsMark (clamped l (count - s.last_count)) s.tap1 s.tap2 mark h1 h2, (mark, h1), tt)

  pub reset_fill-IsFill : (s : Fill) → IsFill l (reset_fill l s)
  unfolding reset_fill
  reset_fill-IsFill s = ground arith

  when_asleep-IsFill :
      (address count : ℕ) (s : Fill) → IsFill l s → IsFill l (when_asleep l address count s).1
  unfolding when_asleep
  when_asleep-IsFill address count s (mark, (h1, h2), t) =
      ground (
        arith,
        new_mark-IsFill count (record s { time_slept = s.time_slept + sleep_interval }) h1 h2,
      )

  when_ready-IsFill :
      (address count : ℕ) (s : Fill)
      → s.phase ≡ ready
      → IsFill l s
      → IsFill l (when_ready l address count s).1
  unfolding when_ready
  when_ready-IsFill address count s e (mark, (h1, h2), t) = ground arith

  when_wrapped-IsFill :
      (address count : ℕ) (s : Fill)
      → s.phase ≡ wrap
      → IsFill l s
      → IsFill l (when_wrapped l address count s).1
  unfolding when_wrapped
  when_wrapped-IsFill address count s e (mark, (h1, h2), t) = ground arith

  -- CanProcess keeps the low-water mark and the taps of the filter between two packets and the
  -- maximum, and sleeps for less than the timeout before it goes on, for limits where this is
  -- possible.
  pub can_process-IsFill :
      (address count : ℕ) (s : Fill) → IsFill l s → IsFill l (can_process l address count s).1
  can_process-IsFill address count s h = elim (Phase-cases s.phase) [
    | inl e ↦ rw (can_process-ready l address count s e) (when_ready-IsFill address count s e h)
    | inr (inl e) ↦
        rw (can_process-sleep l address count s e) (when_asleep-IsFill address count s h)
    | inr (inr e) ↦
        rw (can_process-wrap l address count s e) (when_wrapped-IsFill address count s e h)
  ]
