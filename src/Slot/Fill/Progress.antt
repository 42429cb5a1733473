-- ===== src/Slot/Fill/Progress.antt =====
-- `CanProcess` of SCCAMSlot.cpp, called again and again on an input buffer that stays as it is.
use vdr_plugin_dvbapi.Prelude.{
  ℕ, zero, suc, ◌+◌, ◌*◌, ◌≤◌, ◌<◌, ◌≡◌, ◌⊎◌, ◌∙◌, refl, ap, subst, inl, inr, Bool-cases, Bool,
  true, false, ◌||◌, ltb, leb, arith,
}
use vdr_plugin_dvbapi.Slot.Fill.{
  ready, sleep, wrap, Limits, Fill, new_mark, when_ready, when_asleep, when_wrapped, can_process,
}
use vdr_plugin_dvbapi.Slot.Fill.Bounds.{
  Phase-cases, can_process-ready, can_process-sleep, can_process-wrap, IsTimed,
}

module _ (l : Limits) (address count : ℕ) where
  -- Whether one of `n` calls on the same input returns true.
  pub opens : ℕ → Fill → Bool
  opens zero s = false
  opens (suc n) s =
      let rest = opens n (can_process l address count s).1 in
      (can_process l address count s).0 || rest

  opens_now : (n : ℕ) (s : Fill) → (can_process l address count s).0 ≡ true → opens (suc n) s ≡ true
  unfolding opens
  opens_now n s e = ground arith

  opens_later :
      (n : ℕ) (s : Fill) → opens n (can_process l address count s).1 ≡ true → opens (suc n) s ≡ true
  unfolding opens
  opens_later n s e = ground arith

  opens_longer : (n k : ℕ) (s : Fill) → n ≤ k → opens n s ≡ true → opens k s ≡ true
  unfolding opens
  opens_longer zero k s h e = ground arith
  opens_longer (suc n) zero s h e = absurd (omega arith)
  opens_longer (suc n) (suc k) s h e =
      ground (arith, opens_longer n k (can_process l address count s).1)

  when_ready_low :
      (s : Fill)
      → ltb count s.low_water_mark ≡ true
      → when_ready l address count s ≡ (
        false,
        record s { phase = sleep; last_count = count; last_data = address; time_slept = 0 },
      )
  unfolding when_ready
  when_ready_low s e = rw e refl

  when_ready_high :
      (s : Fill) → ltb count s.low_water_mark ≡ false → (when_ready l address count s).0 ≡ true
  unfolding when_ready
  when_ready_high s e = rw e refl

  -- The steps in `sleep`.
  asleep_stuck :
      (s : Fill)
      → s.last_count ≡ count
      → s.last_data ≡ address
      → l.data_interval ≤ s.time_slept + 20
      → (when_asleep l address count s).0 ≡ true
  unfolding when_asleep
  asleep_stuck s e f due = ground arith

  asleep_waits :
      (s : Fill)
      → s.last_count ≡ count
      → s.time_slept + 20 < l.data_interval
      → l.data_interval ≤ l.timeout
      → when_asleep l address count s ≡ (false, record s { time_slept = s.time_slept + 20 })
  unfolding when_asleep
  asleep_waits s e early ordered = ground arith

  asleep_steps :
      (s : Fill)
      → ((when_asleep l address count s).0 ≡ true)
        ⊎ (((when_asleep l address count s).1.phase ≡ ready)
            ⊎ ((when_asleep l address count s
                  ≡ (false, record s { time_slept = s.time_slept + 20 }))
                × (s.time_slept + 20 < l.timeout)))
  unfolding when_asleep new_mark
  asleep_steps s = ground arith

  wrapped_steps :
      (s : Fill)
      → ((when_wrapped l address count s).0 ≡ true)
        ⊎ ((when_wrapped l address count s).1.phase ≡ ready)
  unfolding when_wrapped
  wrapped_steps s = ground arith

  -- Everything below is for a data interval of at most the timeout, as the constructor has it.
  module _ (ordered : l.data_interval ≤ l.timeout) where
    opens_same :
        (n : ℕ) (s : Fill)
        → s.phase ≡ sleep
        → s.last_count ≡ count
        → s.last_data ≡ address
        → l.data_interval ≤ s.time_slept + 20 * n
        → 0 < n
        → opens n s ≡ true
    opens_same zero s e f g late h = absurd (omega arith)
    opens_same (suc n) s e f g late h =
        elim (Bool-cases (leb l.data_interval (s.time_slept + 20))) [
          | inl due ↦ opens_now n s (
              ap (λ r. r.0) (can_process-sleep l address count s e)
              ∙ asleep_stuck s f g (ground arith))
          | inr not_due ↦
              let early : s.time_slept + 20 < l.data_interval = ground arith in
              let step = can_process-sleep l address count s e ∙ asleep_waits s f early ordered in
              opens_later n s (
                rw step (
                  opens_same n (record s { time_slept = s.time_slept + 20 }) e f g (omega arith)
                    (omega arith)))
        ]

    module _ (n : ℕ) (some_calls : 0 < n) (enough : l.data_interval ≤ 20 * n) where
      opens-ready : (s : Fill) → s.phase ≡ ready → opens (suc n) s ≡ true
      opens-ready s e = elim (Bool-cases (ltb count s.low_water_mark)) [
        | inl low ↦ opens_later n s (
            rw (can_process-ready l address count s e) (
              rw (when_ready_low s low) (
                opens_same n
                  (record s {
                    phase = sleep;
                    last_count = count;
                    last_data = address;
                    time_slept = 0;
                  })
                  refl refl refl (omega arith) some_calls)))
        | inr high ↦
            opens_now n s
              (ap (λ r. r.0) (can_process-ready l address count s e) ∙ when_ready_high s high)
      ]

      opens-sleep :
          (m : ℕ) (s : Fill)
          → s.phase ≡ sleep
          → s.time_slept < l.timeout
          → l.timeout ≤ s.time_slept + 20 * m
          → opens (m + suc n) s ≡ true
      opens-sleep zero s e h late = absurd (omega arith)
      opens-sleep (suc m) s e h late =
          let step = can_process-sleep l address count s e in
          opens_longer (suc (m + suc n)) (suc m + suc n) s (omega arith) (elim (asleep_steps s) [
            | inl now ↦ opens_now (m + suc n) s (ap (λ r. r.0) step ∙ now)
            | inr (inl woke) ↦ opens_later (m + suc n) s (
                rw step (
                  opens_longer (suc n) (m + suc n) (when_asleep l address count s).1 (omega arith)
                    (opens-ready (when_asleep l address count s).1 woke)))
            | inr (inr (waits, t)) ↦ opens_later (m + suc n) s (
                rw (step ∙ waits)
                  (opens-sleep m (record s { time_slept = s.time_slept + 20 }) e t (omega arith)))
          ])

      opens-wrap : (s : Fill) → s.phase ≡ wrap → opens (suc (suc n)) s ≡ true
      opens-wrap s e =
          let step = can_process-wrap l address count s e in
          elim (wrapped_steps s) [
            | inl now ↦ opens_now (suc n) s (ap (λ r. r.0) step ∙ now)
            | inr woke ↦
                opens_later (suc n) s
                  (rw step (opens-ready (when_wrapped l address count s).1 woke))
          ]

      -- If `n` and `m` sleeps of 20 ms reach the data interval and the timeout, n is not 0, and the
      -- data interval is at most the timeout, then one of any m + n + 2 calls of CanProcess on the
      -- same data returns true, in any state with a sleep below the timeout.
      pub opens-can_process :
          (m : ℕ) (s : Fill)
          → l.timeout ≤ 20 * m
          → IsTimed l s.phase s.time_slept
          → opens (m + suc (suc n)) s ≡ true
      opens-can_process m s late timed = elim (Phase-cases s.phase) [
        | inl e ↦ opens_longer (suc n) (m + suc (suc n)) s (omega arith) (opens-ready s e)
        | inr (inl e) ↦
            opens_longer (m + suc n) (m + suc (suc n)) s (omega arith)
              (opens-sleep m s e (subst (λ p. IsTimed l p s.time_slept) e timed) (omega arith))
        | inr (inr e) ↦
            opens_longer (suc (suc n)) (m + suc (suc n)) s (omega arith) (opens-wrap s e)
      ]
