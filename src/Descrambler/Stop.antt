-- ===== src/Descrambler/Stop.antt =====
-- `StopDecrypt` and `SetDVBAPIPid`, which look for a key in the pid map of an adapter. The keys are a
-- store with the service id and the ECM pid of a key (`Get_FastECM_PID`; below 0 is `none`).
use vdr_plugin_dvbapi.Prelude.{
  ℕ, zero, suc, ◌≡◌, ◌∙◌, refl, ap, Bool, true, false, Option, none, some, [], ◌∷◌, length, erase,
  nat_ord, ltb, ◌==◌, arith, if◌then◌else◌,
}
use vdr_plugin_dvbapi.Descrambler.{AdapterPidMap, max_csa_idx, same_sid, pass, passes, init_parity}
use vdr_plugin_dvbapi.Descrambler.Parity.{IsClear, init_parity-IsClear}

-- The loop of SetDVBAPIPid: the index of the slot, if a pid has it, and the slot otherwise.
pub slot_index : ℕ → AdapterPidMap → ℕ
slot_index slot [] = slot
slot_index slot ((pid, idx) ∷ m) = if idx == slot then idx else slot_index slot m

-- `SetDVBAPIPid`, for numbers that are not negative: the key that SetFastECMPid is called for.
pub set_dvbapi_pid : ℕ → AdapterPidMap → Option ℕ
unfolding slot_index
set_dvbapi_pid slot m = if ltb slot max_csa_idx then some (slot_index slot m) else none

-- SetDVBAPIPid always takes the key with the index of the slot, whatever the pid map holds.
slot_index_slot : (slot : ℕ) (m : AdapterPidMap) → slot_index slot m ≡ slot
unfolding slot_index
slot_index_slot slot [] = refl
slot_index_slot slot ((pid, idx) ∷ m) = ground (arith, slot_index_slot slot m)

module _ {K : Type 0} (sid_of pid_of : K → ℕ → Option ℕ) (init : ℕ → K → K) where
  -- The loop of StopDecrypt: the first index whose key has the ECM pid.
  pub find_slot : K → ℕ → AdapterPidMap → Option ℕ
  find_slot keys pid [] = none
  find_slot keys pid ((p, idx) ∷ m) =
      if same_sid (pid_of keys idx) (some pid) then some idx else find_slot keys pid m

  -- `StopDecrypt`, behind the abort of a wait.
  pub stop_decrypt : ℕ → ℕ → K → AdapterPidMap → Option (K × AdapterPidMap)
  unfolding find_slot
  stop_decrypt filter_num pid keys m =
      if filter_num == 1
      then init_parity sid_of init none (find_slot keys pid m) false keys m
      else some (keys, m)

  no_sid : (a : Option ℕ) → same_sid a none ≡ false
  no_sid none = refl
  no_sid (some a) = refl

  -- Without a service, `bdelete` makes no difference.
  pass_slot :
      (slot : Option ℕ) (keys : K) (m : AdapterPidMap)
      → pass sid_of init none slot false keys m ≡ pass sid_of init none slot true keys m
  unfolding pass
  pass_slot slot keys [] = refl
  pass_slot slot keys ((p, idx) ∷ m) = rw (no_sid (sid_of keys idx), pass_slot slot keys m) refl

  -- What a round does with the result of the inner loop.
  abbrev round : Option ℕ → Bool → ℕ → AdapterPidMap → K × Option ℕ → Option (K × AdapterPidMap)
  round slot bdelete fuel m r = elim r.1 [
    | none ↦ some (r.0, m)
    | some pid ↦ passes sid_of init none slot bdelete fuel r.0 (erase pid m)
  ]

  round_slot :
      (slot : Option ℕ) (fuel : ℕ) (m : AdapterPidMap)
      → ((keys : K) (n : AdapterPidMap)
          → passes sid_of init none slot false fuel keys n
            ≡ passes sid_of init none slot true fuel keys n)
      → (r : K × Option ℕ) → round slot false fuel m r ≡ round slot true fuel m r
  round_slot slot fuel m later (keys, none) = refl
  round_slot slot fuel m later (keys, some pid) = later keys (erase pid m)

  passes_slot :
      (slot : Option ℕ) (fuel : ℕ) (keys : K) (m : AdapterPidMap)
      → passes sid_of init none slot false fuel keys m
        ≡ passes sid_of init none slot true fuel keys m
  unfolding passes
  passes_slot slot zero keys m = refl
  passes_slot slot (suc fuel) keys m =
      ap (round slot false fuel m) (pass_slot slot keys m)
      ∙ round_slot slot fuel m (passes_slot slot fuel) (pass sid_of init none slot true keys m)

  -- StopDecrypt for filter number 1 ends, and then no pid has the slot whose key had the ECM pid.
  stop_decrypt-IsClear :
      (pid : ℕ) (keys : K) (m : AdapterPidMap)
      → (keys' : K) × (m' : AdapterPidMap) × (stop_decrypt 1 pid keys m ≡ some (keys', m'))
        × IsClear sid_of init none (find_slot keys pid m) keys' m'
  unfolding stop_decrypt init_parity
  stop_decrypt-IsClear pid keys m =
      let slot = find_slot keys pid m in
      let (keys', m', e, clear) = init_parity-IsClear sid_of init none slot keys m in
      (keys', m', passes_slot slot (suc (length m)) keys m ∙ e, clear)
