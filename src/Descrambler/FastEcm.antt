-- ===== src/Descrambler/FastEcm.antt =====
-- FFdecsa.c: the part between FASTECM START and FASTECM END, which is the plugin's own, and what the
-- control words of FFdecsa note for it. It says for each pid whether the control word of a parity is
-- there. The pids, times and ids are not negative.
pub mod Ops
pub mod Ready
pub mod Wait
pub mod Delivery
mod Tests
use vdr_plugin_dvbapi.Prelude.{
  ℕ, ◌+◌, ◌-◌, ◌≤◌, ◌≡◌, Bool, true, false, not, ◌&&◌, ◌||◌, Option, none, some, List, [], ◌∷◌, ltb,
  leb, ◌==◌, find, insert, nat_ord, if◌then◌else◌,
}
use vdr_plugin_dvbapi.Filter.{max_csa_pid}
use vdr_plugin_dvbapi.Descrambler.{AdapterPidMap, search_pid}

-- `FAST_ECM`. A parity is 1 for even, 2 for odd and 0 where it is not known.
pub record FastEcm : Type 0 where
  pub next_parity : ℕ
  pub even_time : ℕ
  pub odd_time : ℕ
  pub csa_sid : ℕ
  pub csa_caid : ℕ
  pub csa_pid : ℕ
  pub activ_parity : List (ℕ × ℕ)
  pub activ_parity2 : List (ℕ × ℕ)

-- `Init_FastECM`.
pub init_fast_ecm : Bool → FastEcm → FastEcm
init_fast_ecm init_csa k =
    let cleared = record k {
      odd_time = 0;
      even_time = 0;
      next_parity = 0;
      activ_parity = [];
      activ_parity2 = [];
    } in
    if init_csa then record cleared { csa_pid = 0; csa_sid = 0; csa_caid = 0 } else cleared

-- `setFastECMPid`, `setFastECMCaidSid`, and `SetActiveParity2` of the key.
pub set_fast_ecm_pid : ℕ → FastEcm → FastEcm
set_fast_ecm_pid pid k = record k { csa_pid = pid }

pub set_fast_ecm_caid_sid : ℕ → ℕ → FastEcm → FastEcm
set_fast_ecm_caid_sid caid sid k = record k { csa_caid = caid; csa_sid = sid }

pub set_active_parity2 : ℕ → ℕ → FastEcm → FastEcm
set_active_parity2 pid parity k = record k { activ_parity2 = insert pid parity k.activ_parity2 }

-- What `set_even_control_word` and `set_odd_control_word` note beside the key schedule, at a tick.
pub note_control_word : Bool → ℕ → FastEcm → FastEcm
note_control_word odd now k =
    if odd
    then record k { next_parity = 2; odd_time = now }
    else record k { next_parity = 1; even_time = now }

-- `m[pid]`, or 0.
abbrev pub parity_of : ℕ → List (ℕ × ℕ) → ℕ
parity_of pid m = elim (find pid m) as (λ _. ℕ) [ none ↦ 0 | some parity ↦ parity ]

-- `getActiveParity`.
pub get_active_parity : ℕ → FastEcm → ℕ × ℕ
get_active_parity pid k =
    if pid == 0 then (0, 0) else (parity_of pid k.activ_parity, parity_of pid k.activ_parity2)

-- `DeCSAKey::InitFastEcmOnCaid`.
pub init_fast_ecm_on_caid : ℕ → FastEcm → FastEcm
unfolding init_fast_ecm
init_fast_ecm_on_caid caid k = if caid == k.csa_caid then init_fast_ecm false k else k

-- `DeCSA::InitFastEcmOnCaid`, over the key structs that are there.
pub init_keys_on_caid : ℕ → List (Option FastEcm) → List (Option FastEcm)
unfolding init_fast_ecm_on_caid
init_keys_on_caid caid [] = []
init_keys_on_caid caid (none ∷ keys) = none ∷ init_keys_on_caid caid keys
init_keys_on_caid caid (some k ∷ keys) =
    some (init_fast_ecm_on_caid caid k) ∷ init_keys_on_caid caid keys

-- `DeCSAAdapter::GetCaid`, for whether `capmt` is set and the CAIDs of the keys.
pub get_caid : Bool → (ℕ → ℕ) → ℕ → AdapterPidMap → ℕ
get_caid has_capmt caid_of pid m =
    let mapped = elim (search_pid pid m) as (λ _. ℕ) [
      | none ↦ 0
      | some index ↦ if ltb pid max_csa_pid then caid_of index else 0
    ] in
    if has_capmt then mapped else 0

-- What `set_FastECM_CW_Parity` returns, and what it tells by its references.
pub record Answer : Type 0 where
  pub ready : Bool
  pub old_parity : ℕ
  pub first_time_check : Bool
  pub next_parity_set : Bool
  pub activ_parity_patched : Bool

abbrev pub plainly : Bool → ℕ → Answer
plainly ready old = record {
  ready = ready;
  old_parity = old;
  first_time_check = false;
  next_parity_set = false;
  activ_parity_patched = false;
}

abbrev pub activate : ℕ → ℕ → FastEcm → FastEcm
activate pid parity k = record k { activ_parity = insert pid parity k.activ_parity }

-- The check where the pid has no parity yet.
pub first_check : ℕ → ℕ → ℕ → FastEcm → Answer × FastEcm
first_check pid parity old k =
    let k' = activate pid parity k in
    let is_next = k.next_parity == parity in
    let newest =
      if ltb 0 k.even_time && leb k.odd_time k.even_time
      then 1
      else if ltb 0 k.odd_time && leb k.even_time k.odd_time
      then 2
      else k.next_parity in
    (
      record (plainly true old) { first_time_check = true; next_parity_set = is_next },
      if is_next then record k' { next_parity = newest } else k',
    )

abbrev pub time_delta : FastEcm → ℕ
time_delta k =
    if ltb k.odd_time k.even_time then k.even_time - k.odd_time else k.odd_time - k.even_time

-- The check where the parity of the pid changes.
pub change_parity : ℕ → ℕ → ℕ → FastEcm → Answer × FastEcm
change_parity pid parity old k =
    let patched = record (plainly true old) { activ_parity_patched = true } in
    if k.next_parity == parity
    then (plainly true old, activate pid parity k)
    else if ltb 0 k.next_parity && ltb (time_delta k) 500
    then (patched, activate pid parity k)
    else (plainly false old, k)

-- The check of a pid with both control words.
pub check_parity : ℕ → ℕ → ℕ → FastEcm → Answer × FastEcm
unfolding first_check change_parity
check_parity pid parity old k =
    let active = parity_of pid k.activ_parity in
    if active == 0
    then first_check pid parity old k
    else if active == parity
    then (plainly true old, k)
    else change_parity pid parity old k

-- `set_FastECM_CW_Parity` of a key that is there.
pub set_fast_ecm_cw_parity : ℕ → ℕ → Bool → FastEcm → Answer × FastEcm
unfolding check_parity set_active_parity2
set_fast_ecm_cw_parity pid parity force k =
    let old = parity_of pid k.activ_parity2 in
    let noted = set_active_parity2 pid parity k in
    if pid == 0
    then (plainly true parity, k)
    else if k.odd_time == 0 || k.even_time == 0
    then (plainly true old, noted)
    else if force
    then (plainly true old, activate pid parity noted)
    else check_parity pid parity old noted
