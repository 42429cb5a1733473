-- ===== src/Descrambler/FastEcm/Wait.antt =====
-- The wait of `Decrypt` for a control word, over the key of FastECM: what ends it, and in what state.
use vdr_plugin_dvbapi.Prelude.{
  ℕ, zero, suc, ◌+◌, ◌≤◌, ◌<◌, ◌≡◌, refl, sym, subst, ◌∙◌, Bool, true, false, Option, some, List,
  ltb, arith, Bool-cases, inl, inr, ltb_iff,
}
use vdr_plugin_dvbapi.Descrambler.Batch.Finish.{Sleeps, wait_for_cw, await_parity, max_sleep}
use vdr_plugin_dvbapi.Descrambler.FastEcm.{
  FastEcm, parity_of, set_fast_ecm_cw_parity, set_active_parity2, note_control_word, init_fast_ecm,
}
use vdr_plugin_dvbapi.Descrambler.FastEcm.Ops.{fast_ops}
use vdr_plugin_dvbapi.Descrambler.FastEcm.Ready.{
  MustWait, waits, waits_same, set_active_parity2-MustWait, cw_parity, note_control_word-ready,
  init_fast_ecm-ready,
}

module _ {C : Type 0} (decrypt : List (ℕ × ℕ) → List (List ℕ) → C → Bool × List (List ℕ))
    (env : Sleeps (fast_ops decrypt)) (pid : ℕ) where
  -- A round in which nothing comes.
  pub record Quiet (n : ℕ) : Type 0 where
    pub not_aborted : env.aborted n ≡ false
    pub not_timed_out : env.timed_out n ≡ false
    pub kept : (k : C × FastEcm) → env.meanwhile n k ≡ k

  Quiet-wait_for_cw :
      (fuel count parity : ℕ) (c : C) (k : FastEcm)
      → MustWait pid parity k
      → count < max_sleep
      → Quiet (count + 1)
      → wait_for_cw (fast_ops decrypt) (suc fuel) env pid parity count (c, k)
        ≡ wait_for_cw
            (fast_ops decrypt)
            fuel
            env
            pid
            parity
            (count + 1)
            (c, set_active_parity2 pid parity k)
  unfolding wait_for_cw
  Quiet-wait_for_cw fuel count parity c k w early q =
      let zero_returned = waits pid parity k w in
      let same = waits_same pid parity k w in
      let late : ltb max_sleep (count + 1) ≡ false = ground arith in
      rw (q.not_aborted, q.not_timed_out, q.kept (c, k), zero_returned, same, late) refl

  -- A round in which a control word comes, at a tick; `word` is what it makes of the schedules.
  pub record Arrival (word : C → C) (odd : Bool) (now n : ℕ) : Type 0 where
    pub not_aborted : env.aborted n ≡ false
    pub noted : (k : C × FastEcm) → env.meanwhile n k ≡ (word k.0, note_control_word odd now k.1)

  -- The wait ended with the key as the last call left it.
  abbrev Served : C → ℕ → Option (Bool × (C × FastEcm)) → Type 0
  Served c parity r =
      (k : FastEcm) × (r ≡ some (true, (c, k)))
      × (parity_of pid k.activ_parity ≡ parity)
      × (k.next_parity ≡ parity)

  wait_for_cw-Served :
      (fuel count now : ℕ) (word : C → C) (odd : Bool) (c : C) (k : FastEcm)
      → MustWait pid (cw_parity odd) k
      → 0 < now
      → Arrival word odd now (count + 1)
      → Served
          (word c)
          (cw_parity odd)
          (wait_for_cw (fast_ops decrypt) (suc fuel) env pid (cw_parity odd) count (c, k))
  unfolding wait_for_cw
  wait_for_cw-Served fuel count now word odd c k w later a =
      let (ready, active, next) = note_control_word-ready pid now odd k w later in
      (
        (set_fast_ecm_cw_parity pid (cw_parity odd) false (note_control_word odd now k)).1,
        rw (a.not_aborted, a.noted (c, k), ready) refl,
        active,
        next,
      )

  -- After `m` quiet rounds, the last of which is `n`.
  cw_after :
      (m fuel count n now : ℕ) (word : C → C) (odd : Bool) (c : C) (k : FastEcm)
      → MustWait pid (cw_parity odd) k
      → 0 < now
      → count + m ≡ n
      → m < fuel
      → n ≤ max_sleep
      → ((i : ℕ) → count < i → i ≤ n → Quiet i)
      → Arrival word odd now (n + 1)
      → Served
          (word c)
          (cw_parity odd)
          (wait_for_cw (fast_ops decrypt) fuel env pid (cw_parity odd) count (c, k))
  cw_after m zero count n now word odd c k w later last enough room quiet a = absurd (omega arith)
  cw_after zero (suc fuel) count n now word odd c k w later last enough room quiet a =
      let here : n ≡ count = omega arith in
      wait_for_cw-Served fuel count now word odd c k w later
        (subst (λ x. Arrival word odd now (x + 1)) here a)
  cw_after (suc m) (suc fuel) count n now word odd c k w later last enough room quiet a =
      let q = quiet (count + 1) (omega arith) (omega arith) in
      let e = Quiet-wait_for_cw fuel count (cw_parity odd) c k w (omega arith) q in
      subst (Served (word c) (cw_parity odd)) (sym e) (
        cw_after m fuel (count + 1) n now word odd c (set_active_parity2 pid (cw_parity odd) k)
          (set_active_parity2-MustWait pid (cw_parity odd) k w) later (omega arith) (omega arith)
          room (λ i lo hi. quiet i (omega arith) hi) a)

  await_waits :
      (parity : ℕ) (c : C) (k : FastEcm)
      → MustWait pid parity k
      → await_parity (fast_ops decrypt) env pid parity (c, k)
        ≡ wait_for_cw
            (fast_ops decrypt)
            (suc max_sleep)
            env
            pid
            parity
            0
            (c, set_active_parity2 pid parity k)
  unfolding await_parity
  await_waits parity c k w =
      let zero_returned = waits pid parity k w in
      let same = waits_same pid parity k w in rw (zero_returned, same) refl

  -- Where Decrypt has to wait for the control word of a parity, and this comes in one of the first 50
  -- sleeps, before which the key stays as it is and the timer of the wait is not yet out, and no sleep up
  -- to it is aborted: then the wait ends with the round of this sleep, the key is not reset but has the
  -- schedules that the control word makes, and the pid has its parity.
  pub await_parity-Arrival :
      (n now : ℕ) (word : C → C) (odd : Bool) (c : C) (k : FastEcm)
      → MustWait pid (cw_parity odd) k
      → 0 < now
      → n < max_sleep
      → ((i : ℕ) → 0 < i → i ≤ n → Quiet i)
      → Arrival word odd now (n + 1)
      → (k' : FastEcm) × (await_parity (fast_ops decrypt) env pid (cw_parity odd) (c, k)
          ≡ some (true, (word c, k')))
        × (parity_of pid k'.activ_parity ≡ cw_parity odd)
        × (k'.next_parity ≡ cw_parity odd)
  await_parity-Arrival n now word odd c k w later room quiet a =
      subst (Served (word c) (cw_parity odd)) (sym (await_waits (cw_parity odd) c k w)) (
        cw_after n (suc max_sleep) 0 n now word odd c (set_active_parity2 pid (cw_parity odd) k)
          (set_active_parity2-MustWait pid (cw_parity odd) k w) later (omega arith) (omega arith)
          (omega arith) quiet a)

  -- The wait ended with a key that is reset.
  abbrev WasReset : C → Option (Bool × (C × FastEcm)) → Type 0
  WasReset c r = (k : FastEcm) × (r ≡ some (true, (c, init_fast_ecm false k)))

  -- A sleep that is not aborted and leaves the key as it is.
  pub record Idle (n : ℕ) : Type 0 where
    pub not_aborted : env.aborted n ≡ false
    pub kept : (k : C × FastEcm) → env.meanwhile n k ≡ k

  -- Each sleep takes 50 ms at least, and the timer is out after the milliseconds of the wait.
  pub record KeepsTime : Type 0 where
    pub times_out : (n : ℕ) → max_sleep ≤ n → env.timed_out n ≡ true

  -- The parity is forced in a round at whose end the timer is out, and the key is reset.
  late_round :
      (fuel count parity : ℕ) (c : C) (k : FastEcm)
      → MustWait pid parity k
      → Idle (count + 1)
      → env.timed_out (count + 1) ≡ true
      → WasReset c (wait_for_cw (fast_ops decrypt) (suc fuel) env pid parity count (c, k))
  unfolding wait_for_cw
  late_round fuel count parity c k w q out =
      let zero_returned = waits pid parity k w in
      (
        (set_fast_ecm_cw_parity pid parity true (set_fast_ecm_cw_parity pid parity false k).1).1,
        rw (q.not_aborted, out, q.kept (c, k), zero_returned) refl,
      )

  late_after :
      (fuel count parity : ℕ) (c : C) (k : FastEcm)
      → MustWait pid parity k
      → KeepsTime
      → count < max_sleep
      → max_sleep ≤ count + fuel
      → ((i : ℕ) → count < i → i ≤ max_sleep → Idle i)
      → WasReset c (wait_for_cw (fast_ops decrypt) fuel env pid parity count (c, k))
  late_after zero count parity c k w time early enough idle = absurd (omega arith)
  late_after (suc fuel) count parity c k w time early enough idle =
      let q = idle (count + 1) (omega arith) (omega arith) in
      elim (Bool-cases (env.timed_out (count + 1))) [
        | inl out ↦ late_round fuel count parity c k w q out
        | inr more ↦
            let quiet : Quiet (count + 1) = record {
              not_aborted = q.not_aborted;
              not_timed_out = more;
              kept = q.kept;
            } in
            let next : count + 1 < max_sleep = elim (Bool-cases (ltb (count + 1) max_sleep)) [
              | inl t ↦ (ltb_iff _ _).0 t
              | inr t ↦ absurd (cc (time.times_out (count + 1) (ground arith), more))
            ] in
            let (k', e) =
              late_after fuel (count + 1) parity c (set_active_parity2 pid parity k)
                (set_active_parity2-MustWait pid parity k w) time next (omega arith)
                (λ i lo hi. idle i (omega arith) hi) in
            (k', Quiet-wait_for_cw fuel count parity c k w early quiet ∙ e)
      ]

  -- Where Decrypt has to wait, and in the 50 sleeps that the timer allows none is aborted and nothing
  -- comes, it goes on, with the round in which the timer is out at the latest, and with a key that is
  -- reset: no pid waits with it, for either parity.
  pub await_parity-late :
      (parity : ℕ) (c : C) (k : FastEcm)
      → MustWait pid parity k
      → KeepsTime
      → ((i : ℕ) → 0 < i → i ≤ max_sleep → Idle i)
      → (k' : FastEcm) × (await_parity (fast_ops decrypt) env pid parity (c, k)
          ≡ some (true, (c, k')))
        × ((pid' parity' : ℕ) → (set_fast_ecm_cw_parity pid' parity' false k').0.ready ≡ true)
  await_parity-late parity c k w time idle =
      let (k', e) =
        late_after (suc max_sleep) 0 parity c (set_active_parity2 pid parity k)
          (set_active_parity2-MustWait pid parity k w) time (omega arith) (omega arith) idle in
      (
        init_fast_ecm false k',
        await_waits parity c k w ∙ e,
        λ pid' parity'. init_fast_ecm-ready pid' parity' false k',
      )
