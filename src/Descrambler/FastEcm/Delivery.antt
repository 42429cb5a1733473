-- ===== src/Descrambler/FastEcm/Delivery.antt =====
-- `SetDescr` on the socket thread, while Decrypt waits for the control word that it brings.
use vdr_plugin_dvbapi.Prelude.{
  ℕ, ◌+◌, ◌≤◌, ◌<◌, ◌≡◌, refl, sym, ap, ◌∙◌, Bool, true, false, some, List,
}
use mathlib.Core.Option.{some-injective}
use vdr_plugin_dvbapi.Descrambler.Batch.Finish.{Sleeps, await_parity, max_sleep}
use vdr_plugin_dvbapi.Descrambler.Keys.{Crypto, DeCsaKey, describe}
use vdr_plugin_dvbapi.Descrambler.Keys.Own.{describe-key, with_word}
use vdr_plugin_dvbapi.Descrambler.FastEcm.{FastEcm, parity_of, note_control_word}
use vdr_plugin_dvbapi.Descrambler.FastEcm.Ops.{fast_ops, fast_crypto}
use vdr_plugin_dvbapi.Descrambler.FastEcm.Ready.{MustWait, cw_parity}
use vdr_plugin_dvbapi.Descrambler.FastEcm.Wait.{Quiet, await_parity-Arrival}

module _ {C : Type 0} (base : Crypto) (set_word : Bool → List ℕ → ℕ → C → C) (now : ℕ) where
  -- What SetDescr makes of a key struct.
  with_word-fast :
      (odd : Bool) (cw : List ℕ) (ecm : ℕ) (k : C × FastEcm)
      → with_word (fast_crypto base set_word now) odd cw ecm k
        ≡ (set_word odd cw ecm k.0, note_control_word odd now k.1)
  with_word-fast true cw ecm k = refl
  with_word-fast false cw ecm k = refl

  pub describe-fast :
      (fresh : C × FastEcm) (odd : Bool) (cw : List ℕ) (ecm : ℕ)
      (d : DeCsaKey (fast_crypto base set_word now)) (k : C × FastEcm)
      → (describe
          (fast_crypto base set_word now)
          (some fresh)
          odd
          cw
          ecm
          (record d { key = some k })).key
        ≡ some (set_word odd cw ecm k.0, note_control_word odd now k.1)
  describe-fast fresh odd cw ecm d k =
      describe-key (fast_crypto base set_word now) fresh odd cw ecm (record d { key = some k })
      ∙ ap some (with_word-fast odd cw ecm k)

  module _ (decrypt : List (ℕ × ℕ) → List (List ℕ) → C → Bool × List (List ℕ))
      (env : Sleeps (fast_ops decrypt)) (pid : ℕ) where
    -- Where Decrypt waits for the control word of a parity, and the socket thread performs SetDescr with
    -- a control word of this parity on the key in one of the first 50 sleeps, before which the key stays
    -- as it is and the timer of the wait is not yet out, and no sleep up to it is aborted: then the wait
    -- ends with the round of this sleep, the key has the schedule of the control word, and the pid has
    -- its parity.
    pub await_parity-describe :
        (n : ℕ) (fresh : C × FastEcm) (odd : Bool) (cw : List ℕ) (ecm : ℕ)
        (d : DeCsaKey (fast_crypto base set_word now)) (c : C) (k : FastEcm)
        → MustWait pid (cw_parity odd) k
        → 0 < now
        → n < max_sleep
        → ((i : ℕ) → 0 < i → i ≤ n → Quiet decrypt env pid i)
        → env.aborted (n + 1) ≡ false
        → ((j : C × FastEcm)
            → (describe
                (fast_crypto base set_word now)
                (some fresh)
                odd
                cw
                ecm
                (record d { key = some j })).key
              ≡ some (env.meanwhile (n + 1) j))
        → (k' : FastEcm) × (await_parity (fast_ops decrypt) env pid (cw_parity odd) (c, k)
            ≡ some (true, (set_word odd cw ecm c, k')))
          × (parity_of pid k'.activ_parity ≡ cw_parity odd)
          × (k'.next_parity ≡ cw_parity odd)
    await_parity-describe n fresh odd cw ecm d c k w later room quiet not_aborted told =
        await_parity-Arrival decrypt env pid n now (set_word odd cw ecm) odd c k w later room quiet
          (record {
            not_aborted = not_aborted;
            noted = λ j. some-injective _ _ (sym (told j) ∙ describe-fast fresh odd cw ecm d j);
          })
