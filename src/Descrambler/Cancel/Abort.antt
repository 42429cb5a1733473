-- ===== src/Descrambler/Cancel/Abort.antt =====
-- What becomes of a wait once `bAbort` is set in one of its sleeps.
use vdr_plugin_dvbapi.Prelude.{◌≡◌, ◌⊎◌, inl, inr, refl, true, arith}
use vdr_plugin_dvbapi.Descrambler.Cancel.{
  asleep, seen_abort, Wait, new_wait, DecryptStep, CancelStep, Step, Steps,
}
use vdr_plugin_dvbapi.Descrambler.Cancel.Excluded.{
  Sound, step-Sound, Steps-Sound, has_lock, is_inside, is_decrypter, is_canceller,
}

-- A run in which Decrypt does nothing.
pub data CancelSteps : Wait → Wait → Type 0 where
  no_step : (s : Wait) → CancelSteps s s
  then_cancel : {s t u : Wait} → CancelStep s t → CancelSteps t u → CancelSteps s u

-- In its sleep, with `bAbort` set.
pub record Doomed (s : Wait) : Type 0 where
  pub sleeps : s.decrypt ≡ asleep
  pub aborted : s.abort ≡ true

CancelStep-Doomed : (s t : Wait) → CancelStep s t → Sound s → Doomed s → Doomed t
unfolding has_lock is_inside is_decrypter is_canceller
CancelStep-Doomed _ _ (CancelStep.notice i s e w) h d = ground arith
CancelStep-Doomed _ _ (CancelStep.raise i s e) h d = ground arith
CancelStep-Doomed _ _ (CancelStep.lock_cancel i s e f) h d = ground arith
CancelStep-Doomed _ _ (CancelStep.clear i s e) h d =
    absurd (ground (arith, h.canceller_holds i, h.decrypter_holds))
CancelStep-Doomed _ _ (CancelStep.unlock_cancel i s e) h d = ground arith

DecryptStep-Doomed : (s t : Wait) → DecryptStep s t → Doomed s → t.decrypt ≡ seen_abort
DecryptStep-Doomed _ _ (DecryptStep.announce s e) d = ground arith
DecryptStep-Doomed _ _ (DecryptStep.lock_stop s e f) d = ground arith
DecryptStep-Doomed _ _ (DecryptStep.see_abort s e a) d = refl
DecryptStep-Doomed _ _ (DecryptStep.try_parity s e a) d = ground arith
DecryptStep-Doomed _ _ (DecryptStep.sleep_again s e) d = ground arith
DecryptStep-Doomed _ _ (DecryptStep.end_wait s e) d = ground arith
DecryptStep-Doomed _ _ (DecryptStep.unannounce s e) d = ground arith
DecryptStep-Doomed _ _ (DecryptStep.reset_abort s e) d = ground arith
DecryptStep-Doomed _ _ (DecryptStep.unannounce_served s e) d = ground arith
DecryptStep-Doomed _ _ (DecryptStep.unlock_stop s e) d = ground arith

-- Decrypt has done nothing yet, or the first that it has done is to see `bAbort`.
abbrev pub EndsByAbort : Wait → Wait → Type 0
EndsByAbort s t =
    (CancelSteps s t × Doomed t)
    ⊎ ((u : Wait) × (v : Wait) × CancelSteps s u
        × DecryptStep u v
        × (v.decrypt ≡ seen_abort)
        × Steps v t)

after_cancel : {s t u : Wait} → CancelStep s t → EndsByAbort t u → EndsByAbort s u
after_cancel c (inl (r, d)) = inl (CancelSteps.then_cancel c r, d)
after_cancel c (inr (u, v, r, step, e, rest)) =
    inr (u, v, CancelSteps.then_cancel c r, step, e, rest)

Steps-Doomed : {s t : Wait} → Steps s t → Sound s → Doomed s → EndsByAbort s t
Steps-Doomed (Steps.here s) h d = inl (CancelSteps.no_step s, d)
Steps-Doomed (Steps.then_step (Step.by_decrypt step) r) h d =
    inr (_, _, CancelSteps.no_step _, step, DecryptStep-Doomed _ _ step d, r)
Steps-Doomed (Steps.then_step (Step.by_cancel step) r) h d =
    after_cancel step
      (Steps-Doomed r (step-Sound (Step.by_cancel step) h) (CancelStep-Doomed _ _ step h d))

-- Once `bAbort` is set while Decrypt sleeps in its wait, no thread resets it before Decrypt sees it: in
-- every run from there, the first step of Decrypt is to see it, and until then it stays set.
pub Steps-EndsByAbort :
    {s t : Wait}
    → Steps new_wait s
    → s.decrypt ≡ asleep
    → s.abort ≡ true
    → Steps s t
    → EndsByAbort s t
Steps-EndsByAbort before sleeps aborted r =
    Steps-Doomed r (Steps-Sound before) (record { sleeps = sleeps; aborted = aborted })
