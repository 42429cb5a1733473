-- ===== src/Slot/Module.antt =====
-- SCCAMSlot.cpp: the status that a slot reports as a module, `Status`, `Check` and `ResetSlot`. What
-- `IsDecrypting`, the timer and the adapter's version say is an argument of each call, so that
-- `checkTimer.Set` of Check has no model. That `ResetSlot` clears the ring buffer is left out here.
use vdr_plugin_dvbapi.Prelude.{
  ℕ, ◌≡◌, ◌≢◌, refl, Bool, true, false, not, ◌&&◌, List, ◌==◌, get_or, bit_and, arith,
  if◌then◌else◌, Option, none, some,
}
use vdr_plugin_dvbapi.Slot.Fill.{Limits, Fill, can_process, reset_fill}

-- `eModuleStatus` of VDR, as far as the slot uses it.
pub data Status : Type 0 where
  ms_reset ms_present ms_ready : Status

pub record CamSlot : Type 0 where
  pub version : ℕ
  pub reset : Bool
  pub do_reply : Bool
  pub last_status : Status

pub reset_slot : CamSlot → CamSlot
reset_slot s = record s { reset = true }

-- `Check`, with the field `doReply` and then the version.
pub check_reply : Bool → CamSlot → CamSlot
unfolding reset_slot
check_reply decrypting s =
    if not s.do_reply && not decrypting then record (reset_slot s) { do_reply = true } else s

pub check : Bool → Bool → ℕ → CamSlot → Bool × CamSlot
unfolding check_reply
check decrypting timed_out adapter_version s =
    let checked = check_reply decrypting s in
    if timed_out && not (checked.version == adapter_version)
    then (true, record checked { version = adapter_version })
    else (false, checked)

pub status : Bool → Bool → ℕ → CamSlot → Status × CamSlot
unfolding check
status decrypting timed_out adapter_version s =
    if s.reset
    then (ms_reset, record s { reset = false; last_status = ms_reset })
    else if not (s.version == 0)
    then (ms_ready, record s { last_status = ms_ready })
    else (
      ms_present,
      record (check decrypting timed_out adapter_version s).1 { last_status = ms_present },
    )

-- `Decrypt`: the packets are held back, or given to `DeCSA::Decrypt` or `Analyze` with the count.
pub data Handled : Type 0 where
  withheld : Handled
  descrambled : ℕ → Handled
  analyzed : ℕ → Handled

pub decrypt : Limits → ℕ → Option (List ℕ) → ℕ → Fill → Handled × Fill
decrypt l address none count s = (withheld, s)
decrypt l address (some buf) count s =
    let (ok, s') = can_process l address count s in
    let handled =
      if bit_and (get_or buf 3 0) 0xC0 == 0 then analyzed count else descrambled count in
    (if ok then handled else withheld, s')

-- The constructor, of these fields.
abbrev pub new_cam_slot : CamSlot
new_cam_slot = record { version = 0; reset = true; do_reply = false; last_status = ms_reset }

-- `Assign` of a slot, for the numbers of its card and of that of the device, if any; `vdr` is what
-- `cCamSlot::Assign` returns.
abbrev pub slot_assign : ℕ → Option ℕ → Bool → Bool
slot_assign card none vdr = vdr
slot_assign card (some device) vdr = if device == card then vdr else false

-- `StartDecrypting`, without that of `cCamSlot`.
pub start_decrypting : Limits → Fill → Fill
start_decrypting l s = reset_fill l s

-- Once Check has run with its timer out, it returns false until the version of the adapter changes:
-- CA info is sent once for each version.
check_once :
    (decrypting decrypting' timed_out : Bool) (v : ℕ) (s : CamSlot)
    → (check decrypting' timed_out v (check decrypting true v s).1).0 ≡ false
unfolding check check_reply reset_slot
check_once decrypting decrypting' timed_out v s = ground arith

-- After ResetSlot, Status reports the reset once and then another status.
status-reset_slot :
    (decrypting timed_out : Bool) (v : ℕ) (decrypting' timed_out' : Bool) (v' : ℕ) (s : CamSlot)
    → ((status decrypting timed_out v (reset_slot s)).0 ≡ ms_reset)
      × ((status decrypting' timed_out' v' (status decrypting timed_out v (reset_slot s)).1).0
          ≢ ms_reset)
unfolding status check check_reply reset_slot
status-reset_slot decrypting timed_out v decrypting' timed_out' v' s = ground arith

-- A new slot behind each of its first reports, while nothing is descrambled, with its timer out and a
-- version of the adapter.
abbrev pub started : CamSlot
started = record new_cam_slot { reset = false }

abbrev pub checked : ℕ → CamSlot
checked v = record { version = v; reset = true; do_reply = true; last_status = ms_present }

abbrev pub again : ℕ → CamSlot
again v = record { version = v; reset = false; do_reply = true; last_status = ms_reset }

pub status-new_cam_slot :
    (decrypting timed_out : Bool) (v : ℕ)
    → status decrypting timed_out v new_cam_slot ≡ (ms_reset, started)
unfolding status
status-new_cam_slot decrypting timed_out v = refl

pub status-started : (v : ℕ) → v ≢ 0 → status false true v started ≡ (ms_present, checked v)
unfolding status check check_reply reset_slot
status-started v h = let differs : (0 == v) ≡ false = ground arith in rw differs refl

pub status-checked :
    (decrypting timed_out : Bool) (v w : ℕ)
    → status decrypting timed_out w (checked v) ≡ (ms_reset, again v)
unfolding status
status-checked decrypting timed_out v w = refl

pub status-again :
    (decrypting timed_out : Bool) (v w : ℕ)
    → v ≢ 0
    → status decrypting timed_out w (again v)
      ≡ (ms_ready, record (again v) { last_status = ms_ready })
unfolding status
status-again decrypting timed_out v w h =
    let differs : (v == 0) ≡ false = ground arith in rw differs refl
