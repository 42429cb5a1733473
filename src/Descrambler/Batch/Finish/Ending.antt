-- ===== src/Descrambler/Batch/Finish/Ending.antt =====
-- `Decrypt` ends: its wait for a control word takes at most 51 sleeps.
use vdr_plugin_dvbapi.Prelude.{
  ℕ, zero, suc, ◌+◌, ◌<◌, ◌≡◌, refl, Bool, true, false, ◌&&◌, ◌||◌, Option, none, some, List, ltb,
  leb, ◌==◌, if◌then◌else◌, arith,
}
use vdr_plugin_dvbapi.Capmt.{PmtObj}
use vdr_plugin_dvbapi.Descrambler.Keys.{algo_des, algo_aes128}
use vdr_plugin_dvbapi.Descrambler.Batch.{Batch, new_batch, packets}
use vdr_plugin_dvbapi.Descrambler.Batch.Finish.{
  CsaOps, Sleeps, Decrypted, wait_for_cw, max_sleep, await_parity, fast_caid, prepare,
  is_fast_ecm_caid, decrypt_ranges, with_key, has_range, finish_at, finish_batch, decrypt_buffer,
}

-- There is a result.
abbrev Ends : {A : Type 0} → Option A → Type 0
Ends none = ⊥
Ends (some a) = Unit

if-Ends :
    {A : Type 0} (b : Bool) (x y : Option A)
    → Ends x
    → (b ≡ false → Ends y)
    → Ends (if b then x else y)
if-Ends true x y h g = h
if-Ends false x y h g = g refl

result : {A : Type 0} (x : Option A) → Ends x → (a : A) × (x ≡ some a)
result none h = absurd h
result (some a) h = (a, refl)

module _ (ops : CsaOps) where
  open ops use {Key, set_cw_parity, decrypt_packets}

  wait_for_cw-Ends :
      (fuel : ℕ) (env : Sleeps ops) (pid parity count : ℕ) (k : Key)
      → 0 < fuel
      → fuel + count ≡ max_sleep + 1
      → Ends (wait_for_cw ops fuel env pid parity count k)
  unfolding wait_for_cw
  wait_for_cw-Ends zero env pid parity count k some_fuel h = absurd (omega arith)
  wait_for_cw-Ends (suc fuel) env pid parity count k some_fuel h =
      let k2 = set_cw_parity pid parity false (env.meanwhile (count + 1) k) in
      if-Ends (env.aborted (count + 1)) _ _ tt (λ _. if-Ends k2.0 _ _ tt (λ _.
        if-Ends (env.timed_out (count + 1) || ltb max_sleep (count + 1)) _ _ tt (λ e.
          wait_for_cw-Ends fuel env pid parity (count + 1) k2.1 (ground arith) (omega arith))))

  await_parity-Ends :
      (env : Sleeps ops) (pid parity : ℕ) (k : Key) → Ends (await_parity ops env pid parity k)
  unfolding await_parity
  await_parity-Ends env pid parity k =
      let k1 = set_cw_parity pid parity false k in
      if-Ends k1.0 _ _ tt
        (λ _. wait_for_cw-Ends (suc max_sleep) env pid parity 0 k1.1 (omega arith) (omega arith))

  prepare-Ends :
      (env : Sleeps ops) (enabled : Bool) (adapter : ℕ) (pmt : List PmtObj) (s : Batch) (k : Key)
      → Ends (prepare ops env enabled adapter pmt s k)
  unfolding prepare
  prepare-Ends env false adapter pmt s k = tt
  prepare-Ends env true adapter pmt s k =
      let c = fast_caid ops adapter pmt k in
      if-Ends (is_fast_ecm_caid c.0) _ _ (await_parity-Ends env s.cur_pid s.wants_parity c.1)
        (λ _. tt)

  decrypt_ranges-Ends :
      (s : Batch) (out : List (List ℕ)) (r : Option (Bool × Key))
      → Ends r
      → Ends (decrypt_ranges ops s out r)
  decrypt_ranges-Ends s out none h = h
  decrypt_ranges-Ends s out (some (false, k)) h = tt
  decrypt_ranges-Ends s out (some (true, k)) h = tt

  with_key-Ends :
      (env : Sleeps ops) (enabled : Bool) (adapter : ℕ) (pmt : List PmtObj) (s : Batch)
      (out : List (List ℕ)) (key : Option Key)
      → Ends (with_key ops env enabled adapter pmt s out key)
  with_key-Ends env enabled adapter pmt s out none = tt
  with_key-Ends env enabled adapter pmt s out (some k) =
      decrypt_ranges-Ends s out (prepare ops env enabled adapter pmt s k)
        (prepare-Ends env enabled adapter pmt s k)

  module _ (csnew : ℕ) (force : Bool) (algo : ℕ → ℕ) (aes : ℕ → Bool) where
    finish_at-Ends :
        (env : Sleeps ops) (enabled : Bool) (adapter : ℕ) (pmt : List PmtObj) (key : Option Key)
        (s : Batch) (out : List (List ℕ)) (current : Option ℕ)
        → Ends (finish_at ops csnew force algo aes env enabled adapter pmt key s out current)
    finish_at-Ends env enabled adapter pmt key s out none = tt
    finish_at-Ends env enabled adapter pmt key s out (some index) =
        if-Ends (algo index == algo_des || (algo index == algo_aes128 || aes index)) _ _ tt (λ _.
          if-Ends (has_range s.ranges && (leb csnew s.ccs || force)) _ _
            (with_key-Ends env enabled adapter pmt s out key) (λ _. tt))

    finish_batch-Ends :
        (env : Sleeps ops) (enabled : Bool) (adapter : ℕ) (pmt : List PmtObj) (key : Option Key)
        (s : Batch) (out : List (List ℕ))
        → Ends (finish_batch ops csnew force algo aes env enabled adapter pmt key s out)
    unfolding finish_batch
    finish_batch-Ends env enabled adapter pmt key s out =
        finish_at-Ends env enabled adapter pmt key s out s.current

-- Decrypt returns for every buffer, whatever the state of the keys and whatever happens in its sleeps:
-- the 51 rounds that the wait for a control word has at most are enough, by the count of the sleeps
-- alone.
pub decrypt_buffer-ends :
    (ops : CsaOps) (csnew : ℕ) (force : Bool) (algo : ℕ → ℕ) (aes : ℕ → Bool)
    (search : ℕ → Option ℕ) (des : ℕ → Bool → List ℕ → List ℕ)
    (aes_decrypt : ℕ → Bool → List ℕ → Option (List ℕ)) (env : Sleeps ops) (enabled : Bool)
    (adapter : ℕ) (pmt : List PmtObj) (key : Option ops.Key) (all : List (List ℕ))
    → (r : Decrypted ops) × (decrypt_buffer ops csnew force algo aes search des aes_decrypt env
          enabled adapter pmt key all
        ≡ some r)
unfolding decrypt_buffer
decrypt_buffer-ends ops csnew force algo aes search des aes_decrypt env enabled adapter pmt key
      all =
    result _ (by_loop (packets csnew search algo aes des aes_decrypt 0 all new_batch))
  where
    by_loop :
        (r : Option (Batch × List (List ℕ)))
        → Ends (elim r as (λ _. Option (Decrypted ops)) [
          | none ↦ some (false, (all, key))
          | some (s, out) ↦ finish_batch ops csnew force algo aes env enabled adapter pmt key s out
        ])
    by_loop none = tt
    by_loop (some (s, out)) =
        finish_batch-Ends ops csnew force algo aes env enabled adapter pmt key s out
