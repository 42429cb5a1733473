-- ===== src/Descrambler/Batch/Finish.antt =====
-- DeCSA.cpp: `DeCSAAdapter::Decrypt` behind its loop over the packets. It waits for a control word of
-- the parity where the CAID uses FastECM, and gives the ranges to FFdecsa.
pub mod Ending
mod Tests
use vdr_plugin_dvbapi.Prelude.{
  ℕ, zero, suc, ◌+◌, ◌/◌, Bool, true, false, ◌&&◌, ◌||◌, Option, none, some, List, [], ◌∷◌, ltb,
  leb, ◌==◌, bit_and, if◌then◌else◌,
}
use vdr_plugin_dvbapi.Capmt.{PmtObj, get_caid_from_pid}
use vdr_plugin_dvbapi.Descrambler.Keys.{algo_des, algo_aes128}
use vdr_plugin_dvbapi.Descrambler.Batch.{Batch, new_batch, packets}

-- FFdecsa on a key struct. A CAID that is not positive is 0, a pid that is negative is none.
-- `set_cw_parity` takes the pid, the parity and `bforce`, and returns whether there is a control word
-- (not 0). `decrypt_packets` says whether it has decrypted any.
pub record CsaOps : Type 1 where
  pub Key : Type 0
  pub caid : Key → ℕ
  pub ecm_pid : Key → Option ℕ
  pub set_caid_sid : ℕ → ℕ → Key → Key
  pub set_cw_parity : ℕ → ℕ → Bool → Key → Bool × Key
  pub init_parity2 : Key → Key
  pub set_active_parity2 : ℕ → ℕ → Key → Key
  pub decrypt_packets : List (ℕ × ℕ) → List (List ℕ) → Key → Bool × (List (List ℕ) × Key)

pub is_fast_ecm_caid : ℕ → Bool
is_fast_ecm_caid caid =
    (caid == 0x09C4 || (caid == 0x098C || (caid == 0x098D || caid == 0x09AF)))
    || (caid == 0x09CD || caid == 0x0963)

-- `imaxSleep`: the milliseconds of the wait over those of a sleep.
abbrev pub max_sleep : ℕ
max_sleep = 2500 / 50

abbrev pub has_range : List (ℕ × ℕ) → Bool
has_range [] = false
has_range (r ∷ rs) = true

module _ (ops : CsaOps) where
  open ops use {
    Key, caid, ecm_pid, set_caid_sid, set_cw_parity, init_parity2, set_active_parity2,
    decrypt_packets,
  }

  -- What happens in the sleep of a round: whether `bAbort` is set then, whether the timer is out, and
  -- what the other threads make of the key. The timer is any here; `KeepsTime` of FastEcm/Wait.antt
  -- says that it is out after the 50 sleeps of 50 ms that 2500 ms have.
  pub record Sleeps : Type 0 where
    pub aborted : ℕ → Bool
    pub timed_out : ℕ → Bool
    pub meanwhile : ℕ → Key → Key

  -- Whether Decrypt is to go on; false where the wait is aborted.
  unfoldable pub wait_for_cw : ℕ → Sleeps → ℕ → ℕ → ℕ → Key → Option (Bool × Key)
  wait_for_cw zero env pid parity count k = none
  wait_for_cw (suc fuel) env pid parity count k =
      let n = count + 1 in
      let k1 = env.meanwhile n k in
      let (ok, k2) = set_cw_parity pid parity false k1 in
      let later = wait_for_cw fuel env pid parity n k2 in
      if env.aborted n
      then some (false, k1)
      else if ok
      then some (true, k2)
      else if env.timed_out n || ltb max_sleep n
      then some (true, init_parity2 (set_cw_parity pid parity true k2).1)
      else later

  -- The CAID of the key, which is looked up with `CAPMT` where the key has none.
  pub fast_caid : ℕ → List PmtObj → Key → ℕ × Key
  fast_caid adapter pmt k =
      let looked_up : ℕ × Key = elim (ecm_pid k) as (λ _. ℕ × Key) [
        | none ↦ (0, k)
        | some pid ↦
            let (found, sid) = get_caid_from_pid adapter pid pmt in
            if ltb 0 found then (found, set_caid_sid found sid k) else (0, k)
      ] in
      if ltb 0 (caid k) then (caid k, k) else looked_up

  -- The control word of the parity is made ready; `enabled` is `ENABLEFASTECM`.
  unfoldable pub await_parity : Sleeps → ℕ → ℕ → Key → Option (Bool × Key)
  unfolding wait_for_cw
  await_parity env pid parity k =
      let (ok, k1) = set_cw_parity pid parity false k in
      let waited = wait_for_cw (suc max_sleep) env pid parity 0 k1 in
      if ok then some (true, k1) else waited

  pub prepare : Sleeps → Bool → ℕ → List PmtObj → Batch → Key → Option (Bool × Key)
  unfolding fast_caid await_parity is_fast_ecm_caid
  prepare env enabled adapter pmt s k =
      let (c, k1) = fast_caid adapter pmt k in
      let fast = await_parity env s.cur_pid s.wants_parity k1 in
      if enabled
      then if is_fast_ecm_caid c
        then fast
        else some (true, set_active_parity2 s.cur_pid s.wants_parity k1)
      else some (true, set_active_parity2 s.cur_pid s.wants_parity k)

  -- The call of FFdecsa: the value that Decrypt returns, the packets and the key.
  abbrev pub Decrypted : Type 0
  Decrypted = Bool × (List (List ℕ) × Option Key)

  abbrev pub decrypt_ranges : Batch → List (List ℕ) → Option (Bool × Key) → Option Decrypted
  decrypt_ranges s out none = none
  decrypt_ranges s out (some (false, k)) = some (false, (out, some k))
  decrypt_ranges s out (some (true, k)) =
      let (any, (out', k')) = decrypt_packets s.ranges out k in some (any, (out', some k'))

  -- What is left for an index, where `GetKeyStruct` gives the key, if any.
  abbrev pub with_key :
      Sleeps → Bool → ℕ → List PmtObj → Batch → List (List ℕ) → Option Key → Option Decrypted
  with_key env enabled adapter pmt s out none = some (false, (out, none))
  with_key env enabled adapter pmt s out (some k) =
      decrypt_ranges s out (prepare env enabled adapter pmt s k)

  -- Behind the loop.
  module _ (csnew : ℕ) (force : Bool) (algo : ℕ → ℕ) (aes : ℕ → Bool) where
    abbrev pub finish_at :
        Sleeps
        → Bool
        → ℕ
        → List PmtObj
        → Option Key
        → Batch
        → List (List ℕ)
        → Option ℕ
        → Option Decrypted
    finish_at env enabled adapter pmt key s out none = some (false, (out, key))
    finish_at env enabled adapter pmt key s out (some index) =
        let rest = with_key env enabled adapter pmt s out key in
        if algo index == algo_des || (algo index == algo_aes128 || aes index)
        then some (true, (out, key))
        else if has_range s.ranges && (leb csnew s.ccs || force)
        then rest
        else some (false, (out, key))

    pub finish_batch :
        Sleeps → Bool → ℕ → List PmtObj → Option Key → Batch → List (List ℕ) → Option Decrypted
    unfolding prepare
    finish_batch env enabled adapter pmt key s out =
        finish_at env enabled adapter pmt key s out s.current

    -- `Decrypt` of a buffer. Where the loop returns false the packets are as they were.
    pub decrypt_buffer :
        (ℕ → Option ℕ)
        → (ℕ → Bool → List ℕ → List ℕ)
        → (ℕ → Bool → List ℕ → Option (List ℕ))
        → Sleeps
        → Bool
        → ℕ
        → List PmtObj
        → Option Key
        → List (List ℕ)
        → Option Decrypted
    unfolding packets finish_batch
    decrypt_buffer search des aes_decrypt env enabled adapter pmt key all =
        elim (packets csnew search algo aes des aes_decrypt 0 all new_batch)
          as (λ _. Option Decrypted) [
            | none ↦ some (false, (all, key))
            | some (s, out) ↦ finish_batch env enabled adapter pmt key s out
          ]
