-- ===== src/Descrambler/Cancel/Tests.antt =====
-- A thread that cancels the wait of Decrypt in its sleep, and one that does so too early.
use vdr_plugin_dvbapi.Prelude.{◌≡◌, refl, true, false}
use vdr_plugin_dvbapi.Descrambler.Cancel.{
  announced, asleep, seen_abort, idle, noticed, raised, holding, cleared, free, decrypter, Wait,
  at_thread, new_wait, DecryptStep, CancelStep, Step, Steps,
}
use vdr_plugin_dvbapi.Descrambler.Cancel.Excluded.{Sound, Steps-Sound}
use vdr_plugin_dvbapi.Descrambler.Cancel.Abort.{EndsByAbort, Steps-EndsByAbort}

abbrev announced_wait : Wait
announced_wait = record new_wait { waiting = true; decrypt = announced }

abbrev asleep_wait : Wait
asleep_wait = record announced_wait { holder = decrypter; decrypt = asleep }

abbrev noticed_wait : Wait
noticed_wait = record asleep_wait { cancel = at_thread 3 noticed asleep_wait.cancel }

abbrev raised_wait : Wait
raised_wait = record noticed_wait { abort = true; cancel = at_thread 3 raised noticed_wait.cancel }

abbrev seen_wait : Wait
seen_wait = record raised_wait { decrypt = seen_abort }

to_raised : Steps new_wait raised_wait
to_raised = Steps.then_step (Step.by_decrypt (DecryptStep.announce new_wait refl)) (
    Steps.then_step (Step.by_decrypt (DecryptStep.lock_stop announced_wait refl refl)) (
      Steps.then_step (Step.by_cancel (CancelStep.notice 3 asleep_wait refl refl)) (
        Steps.then_step (Step.by_cancel (CancelStep.raise 3 noticed_wait refl))
          (Steps.here raised_wait))))

to_seen : Steps raised_wait seen_wait
to_seen =
    Steps.then_step (Step.by_decrypt (DecryptStep.see_abort raised_wait refl refl))
      (Steps.here seen_wait)

Steps-Sound_example : Sound raised_wait
Steps-Sound_example = Steps-Sound to_raised

Steps-EndsByAbort_example : EndsByAbort raised_wait seen_wait
Steps-EndsByAbort_example = Steps-EndsByAbort to_raised refl refl to_seen

-- A whole call of CancelWait between `bCW_Waiting = true` and the lock of the wait.
early_call :
    (s : Wait)
    → s.waiting ≡ true
    → s.holder ≡ free
    → s.cancel 3 ≡ idle
    → Steps s (record s {
      abort = false;
      holder = free;
      cancel = at_thread 3 idle (
          at_thread 3 cleared
            (at_thread 3 holding (at_thread 3 raised (at_thread 3 noticed s.cancel))));
    })
early_call s w f e = Steps.then_step (Step.by_cancel (CancelStep.notice 3 s e w)) (
    Steps.then_step (Step.by_cancel (CancelStep.raise 3 _ refl)) (
      Steps.then_step (Step.by_cancel (CancelStep.lock_cancel 3 _ refl f)) (
        Steps.then_step (Step.by_cancel (CancelStep.clear 3 _ refl))
          (Steps.then_step (Step.by_cancel (CancelStep.unlock_cancel 3 _ refl)) (Steps.here _)))))

join : {s t u : Wait} → Steps s t → Steps t u → Steps s u
join (Steps.here s) r = r
join (Steps.then_step d l) r = Steps.then_step d (join l r)

-- It has no effect: the wait goes to sleep with `bAbort` reset.
lost_abort :
    (t : Wait) × Steps new_wait t × (t.decrypt ≡ asleep) × (t.abort ≡ false) × (t.cancel 3 ≡ idle)
lost_abort =
    let start =
      Steps.then_step (Step.by_decrypt (DecryptStep.announce new_wait refl))
        (Steps.here announced_wait) in
    let called = join start (early_call announced_wait refl refl refl) in
    let sleep =
      Steps.then_step (Step.by_decrypt (DecryptStep.lock_stop _ refl refl)) (Steps.here _) in
    (_, join called sleep, refl, refl, refl)
