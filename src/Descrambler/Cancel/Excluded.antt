-- ===== src/Descrambler/Cancel/Excluded.antt =====
-- What holds in every state of the wait and its cancellers: who has the mutex, and what the two flags
-- say.
use vdr_plugin_dvbapi.Prelude.{ℕ, ◌≡◌, refl, ap, Bool, true, false, ◌==◌, arith}
use vdr_plugin_dvbapi.Descrambler.Cancel.{
  DecryptPc, running, announced, asleep, tried, seen_abort, unannounced, served, leaving, CancelPc,
  idle, noticed, raised, holding, cleared, Holder, free, decrypter, canceller, Wait, at_thread,
  new_wait, DecryptStep, CancelStep, Step, Steps,
}

-- Whether Decrypt has the mutex, and whether it has announced its wait.
unfoldable pub has_lock : DecryptPc → Bool
has_lock running = false
has_lock announced = false
has_lock asleep = true
has_lock tried = true
has_lock seen_abort = true
has_lock unannounced = true
has_lock served = true
has_lock leaving = true

unfoldable pub is_announced : DecryptPc → Bool
is_announced running = false
is_announced announced = true
is_announced asleep = true
is_announced tried = true
is_announced seen_abort = true
is_announced unannounced = false
is_announced served = true
is_announced leaving = false

-- Whether a canceller has the mutex, and whether it is to reset the `bAbort` that it has set.
unfoldable pub is_inside : CancelPc → Bool
is_inside idle = false
is_inside noticed = false
is_inside raised = false
is_inside holding = true
is_inside cleared = true

unfoldable pub has_raised : CancelPc → Bool
has_raised idle = false
has_raised noticed = false
has_raised raised = true
has_raised holding = true
has_raised cleared = false

unfoldable pub is_decrypter : Holder → Bool
is_decrypter free = false
is_decrypter decrypter = true
is_decrypter (canceller i) = false

unfoldable pub is_canceller : ℕ → Holder → Bool
is_canceller i free = false
is_canceller i decrypter = false
is_canceller i (canceller j) = i == j

pub record Sound (s : Wait) : Type 0 where
  pub decrypter_holds : is_decrypter s.holder ≡ has_lock s.decrypt
  pub canceller_holds : (i : ℕ) → is_canceller i s.holder ≡ is_inside (s.cancel i)
  pub flag : s.waiting ≡ is_announced s.decrypt
  pub owned : s.abort ≡ true → (i : ℕ) × (has_raised (s.cancel i) ≡ true)

decrypt-Sound : (s t : Wait) → DecryptStep s t → Sound s → Sound t
unfolding has_lock is_announced is_decrypter is_canceller
decrypt-Sound _ _ (DecryptStep.announce s e) h = ground arith
decrypt-Sound _ _ (DecryptStep.lock_stop s e f) h = ground arith
decrypt-Sound _ _ (DecryptStep.see_abort s e a) h = ground arith
decrypt-Sound _ _ (DecryptStep.try_parity s e a) h = ground arith
decrypt-Sound _ _ (DecryptStep.sleep_again s e) h = ground arith
decrypt-Sound _ _ (DecryptStep.end_wait s e) h = ground arith
decrypt-Sound _ _ (DecryptStep.unannounce s e) h = ground arith
decrypt-Sound _ _ (DecryptStep.reset_abort s e) h = ground arith
decrypt-Sound _ _ (DecryptStep.unannounce_served s e) h = ground arith
decrypt-Sound _ _ (DecryptStep.unlock_stop s e) h = ground arith

-- A canceller that is to reset `bAbort` is still to, where another moves.
other_owner :
    (i : ℕ) (pc : CancelPc) (f : ℕ → CancelPc)
    → has_raised (f i) ≡ false
    → (j : ℕ) × (has_raised (f j) ≡ true)
    → (j : ℕ) × (has_raised (at_thread i pc f j) ≡ true)
unfolding has_raised
other_owner i pc f not_here (j, owns) = (j, ground arith)

cancel-Sound : (s t : Wait) → CancelStep s t → Sound s → Sound t
unfolding is_inside has_raised is_decrypter is_canceller
cancel-Sound _ _ (CancelStep.notice i s e w) h = record {
  decrypter_holds = h.decrypter_holds;
  canceller_holds = λ j. ground (arith, h.canceller_holds i, h.canceller_holds j);
  flag = h.flag;
  owned = λ a. other_owner i noticed s.cancel (ap has_raised e) (h.owned a);
}
cancel-Sound _ _ (CancelStep.raise i s e) h = record {
  decrypter_holds = h.decrypter_holds;
  canceller_holds = λ j. ground (arith, h.canceller_holds i, h.canceller_holds j);
  flag = h.flag;
  owned = λ a. (i, ground arith);
}
cancel-Sound _ _ (CancelStep.lock_cancel i s e f) h = record {
  decrypter_holds = ground (arith, h.decrypter_holds);
  canceller_holds = λ j. ground (arith, h.canceller_holds i, h.canceller_holds j);
  flag = h.flag;
  owned = λ a. let (j, owns) = h.owned a in (j, ground arith);
}
cancel-Sound _ _ (CancelStep.clear i s e) h = ground arith
cancel-Sound _ _ (CancelStep.unlock_cancel i s e) h = record {
  decrypter_holds = ground (arith, h.decrypter_holds, h.canceller_holds i);
  canceller_holds = λ j. ground (arith, h.canceller_holds i, h.canceller_holds j);
  flag = h.flag;
  owned = λ a. other_owner i idle s.cancel (ap has_raised e) (h.owned a);
}

pub step-Sound : {s t : Wait} → Step s t → Sound s → Sound t
step-Sound (Step.by_decrypt d) h = decrypt-Sound _ _ d h
step-Sound (Step.by_cancel c) h = cancel-Sound _ _ c h

new_wait-Sound : Sound new_wait
unfolding has_lock is_announced is_inside is_decrypter is_canceller
new_wait-Sound = record {
  decrypter_holds = refl;
  canceller_holds = λ i. refl;
  flag = refl;
  owned = λ a. absurd (ground arith);
}

run-Sound : {s t : Wait} → Steps s t → Sound s → Sound t
run-Sound (Steps.here s) h = h
run-Sound (Steps.then_step d r) h = run-Sound r (step-Sound d h)

-- In every state that Decrypt and any number of threads in CancelWait or StopDecrypt reach together:
-- the thread that has `mutexStopDecrypt` is the one inside its lock, so that none of these threads is
-- inside while Decrypt is in its wait; `bCW_Waiting` is set exactly from the announcement of a wait to
-- its end; and where `bAbort` is set, a thread is still to reset it.
pub Steps-Sound : {s : Wait} → Steps new_wait s → Sound s
Steps-Sound r = run-Sound r new_wait-Sound
