-- ===== src/Descrambler/Cancel.antt =====
-- DeCSA.cpp: the wait of `DeCSAAdapter::Decrypt` for a control word and the threads that cut it short,
-- which are in `DeCSAAdapter::CancelWait` or at the start of `DeCSA::StopDecrypt`. `mutexDecrypt` lets
-- one thread into Decrypt; the others have numbers. A step is one access to `bCW_Waiting`, `bAbort`
-- or `mutexStopDecrypt`. `mutexAdapter`, which Decrypt gives back for its sleeps and which the rest of
-- StopDecrypt takes, is left out: without it there are more runs, so that what holds of all of them
-- holds of those of the program, but it is not said that a thread goes on.
pub mod Excluded
pub mod Abort
mod Tests
use vdr_plugin_dvbapi.Prelude.{ℕ, ◌≡◌, Bool, true, false, ◌==◌, if◌then◌else◌}

-- Where Decrypt stands: out of its wait, with `bCW_Waiting` set, asleep with the mutex, past the test
-- of `bAbort`, with this seen, with `bCW_Waiting` reset after it, with a control word (or without time),
-- and before the mutex is given back.
pub data DecryptPc : Type 0 where
  running announced asleep tried seen_abort unannounced served leaving : DecryptPc

-- Where a call of CancelWait or StopDecrypt stands: out of the block, behind the test of
-- `bCW_Waiting`, with `bAbort` set, with the mutex, with `bAbort` reset.
pub data CancelPc : Type 0 where
  idle noticed raised holding cleared : CancelPc

-- Who has `mutexStopDecrypt`.
pub data Holder : Type 0 where
  free : Holder
  decrypter : Holder
  canceller : ℕ → Holder

-- `bCW_Waiting`, `bAbort` and `mutexStopDecrypt` of an adapter, and where the threads stand.
pub record Wait : Type 0 where
  pub waiting : Bool
  pub abort : Bool
  pub holder : Holder
  pub decrypt : DecryptPc
  pub cancel : ℕ → CancelPc

abbrev pub at_thread : ℕ → CancelPc → (ℕ → CancelPc) → ℕ → CancelPc
at_thread i pc f j = if j == i then pc else f j

-- The constructor of DeCSAAdapter.
abbrev pub new_wait : Wait
new_wait = record {
  waiting = false;
  abort = false;
  holder = free;
  decrypt = running;
  cancel = λ i. idle;
}

-- A step of Decrypt.
pub data DecryptStep : Wait → Wait → Type 0 where
  announce :
      (s : Wait)
      → s.decrypt ≡ running
      → DecryptStep s (record s { waiting = true; decrypt = announced })
  lock_stop :
      (s : Wait)
      → s.decrypt ≡ announced
      → s.holder ≡ free
      → DecryptStep s (record s { holder = decrypter; decrypt = asleep })
  see_abort :
      (s : Wait)
      → s.decrypt ≡ asleep
      → s.abort ≡ true
      → DecryptStep s (record s { decrypt = seen_abort })
  try_parity :
      (s : Wait)
      → s.decrypt ≡ asleep
      → s.abort ≡ false
      → DecryptStep s (record s { decrypt = tried })
  sleep_again : (s : Wait) → s.decrypt ≡ tried → DecryptStep s (record s { decrypt = asleep })
  end_wait : (s : Wait) → s.decrypt ≡ tried → DecryptStep s (record s { decrypt = served })
  unannounce :
      (s : Wait)
      → s.decrypt ≡ seen_abort
      → DecryptStep s (record s { waiting = false; decrypt = unannounced })
  reset_abort :
      (s : Wait)
      → s.decrypt ≡ unannounced
      → DecryptStep s (record s { abort = false; decrypt = leaving })
  unannounce_served :
      (s : Wait)
      → s.decrypt ≡ served
      → DecryptStep s (record s { waiting = false; decrypt = leaving })
  unlock_stop :
      (s : Wait)
      → s.decrypt ≡ leaving
      → DecryptStep s (record s { holder = free; decrypt = running })

-- A step of a thread in CancelWait or StopDecrypt.
pub data CancelStep : Wait → Wait → Type 0 where
  notice :
      (i : ℕ) (s : Wait)
      → s.cancel i ≡ idle
      → s.waiting ≡ true
      → CancelStep s (record s { cancel = at_thread i noticed s.cancel })
  raise :
      (i : ℕ) (s : Wait)
      → s.cancel i ≡ noticed
      → CancelStep s (record s { abort = true; cancel = at_thread i raised s.cancel })
  lock_cancel :
      (i : ℕ) (s : Wait)
      → s.cancel i ≡ raised
      → s.holder ≡ free
      → CancelStep s (record s { holder = canceller i; cancel = at_thread i holding s.cancel })
  clear :
      (i : ℕ) (s : Wait)
      → s.cancel i ≡ holding
      → CancelStep s (record s { abort = false; cancel = at_thread i cleared s.cancel })
  unlock_cancel :
      (i : ℕ) (s : Wait)
      → s.cancel i ≡ cleared
      → CancelStep s (record s { holder = free; cancel = at_thread i idle s.cancel })

pub data Step : Wait → Wait → Type 0 where
  by_decrypt : {s t : Wait} → DecryptStep s t → Step s t
  by_cancel : {s t : Wait} → CancelStep s t → Step s t

-- A run of steps.
pub data Steps : Wait → Wait → Type 0 where
  here : (s : Wait) → Steps s s
  then_step : {s t u : Wait} → Step s t → Steps t u → Steps s u
