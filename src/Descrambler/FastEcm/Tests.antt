-- ===== src/Descrambler/FastEcm/Tests.antt =====
-- A key at its change of parity, and the theorems about it there.
use vdr_plugin_dvbapi.Prelude.{
  ◌+◌, none, ℕ, ◌≤◌, ◌<◌, ◌≡◌, ◌↔◌, refl, Bool, true, false, some, List, [], ◌∷◌, ◌==◌, leb, find,
  insert, if◌then◌else◌, arith,
}
use vdr_plugin_dvbapi.Descrambler.Batch.Finish.{Sleeps, await_parity}
use vdr_plugin_dvbapi.Descrambler.FastEcm.{
  FastEcm, parity_of, set_fast_ecm_cw_parity, note_control_word, get_active_parity,
}
use vdr_plugin_dvbapi.Descrambler.FastEcm.Ops.{fast_ops, fast_crypto}
use vdr_plugin_dvbapi.Descrambler.FastEcm.Ready.{MustWait, set_fast_ecm_cw_parity-MustWait}
use vdr_plugin_dvbapi.Descrambler.Keys.{Crypto, DeCsaKey}
use vdr_plugin_dvbapi.Descrambler.FastEcm.Delivery.{await_parity-describe, describe-fast}
use vdr_plugin_dvbapi.Descrambler.FastEcm.Wait.{Quiet, await_parity-late}

-- The control words came a second apart, the even one last; the pid is at even and changes to odd.
abbrev at_change : FastEcm
at_change = record {
  next_parity = 1;
  even_time = 2000;
  odd_time = 1000;
  csa_sid = 7;
  csa_caid = 0x09C4;
  csa_pid = 32;
  activ_parity = (100, 1) ∷ [];
  activ_parity2 = (100, 1) ∷ [];
}

at_change-MustWait : MustWait 100 2 at_change
unfolding find
at_change-MustWait = record {
  some_pid = omega arith;
  odd_came = omega arith;
  even_came = omega arith;
  known = ground arith;
  changes = ground arith;
  older = ground arith;
  apart = ground arith;
}

set_fast_ecm_cw_parity-MustWait_example :
    ((set_fast_ecm_cw_parity 100 2 false at_change).0.ready ≡ false)
    ↔ ((false ≡ false) × MustWait 100 2 at_change)
set_fast_ecm_cw_parity-MustWait_example =
    set_fast_ecm_cw_parity-MustWait 100 2 false at_change (ground arith)

-- The schedules of the control words are a number here.
abbrev no_cipher : List (ℕ × ℕ) → List (List ℕ) → ℕ → Bool × List (List ℕ)
no_cipher ranges packets c = (true, packets)

abbrev next_word : Bool → List ℕ → ℕ → ℕ → ℕ
next_word odd cw ecm c = c + 1

abbrev no_crypto : Crypto
no_crypto = record {
  CsaKey = ℕ;
  AesCtx = ℕ;
  DesKey = ℕ;
  set_even_cw = λ cw ecm k. k;
  set_odd_cw = λ cw ecm k. k;
  aes_set_key = λ bits cw ctx. (ctx, true);
  aes_update = λ ctx bytes. some bytes;
  des_set_key = λ cw. 0;
  des_block = λ key block. block;
}

abbrev unset : DeCsaKey (fast_crypto no_crypto next_word 3000)
unset = record {
  aes = false;
  algo = 0;
  cipher_mode = 0;
  aes_iv = [];
  key = none;
  aes_keys = none;
  des_keys = (0, 0);
}

-- The odd control word comes in the third sleep.
abbrev arrives : Sleeps (fast_ops no_cipher)
arrives = record {
  aborted = λ n. false;
  timed_out = λ n. leb 50 n;
  meanwhile = λ n k. if n == 3 then (k.0 + 1, note_control_word true 3000 k.1) else k;
}

arrives-Quiet : (i : ℕ) → 0 < i → i ≤ 2 → Quiet no_cipher arrives 100 i
arrives-Quiet i lo hi =
    let other : (i == 3) ≡ false = ground arith in
    record { not_aborted = refl; not_timed_out = ground arith; kept = λ k. rw (other) refl }

await_parity-describe_example :
    (k' : FastEcm) × (await_parity (fast_ops no_cipher) arrives 100 2 (5, at_change)
      ≡ some (true, (6, k')))
    × (parity_of 100 k'.activ_parity ≡ 2)
    × (k'.next_parity ≡ 2)
await_parity-describe_example =
    await_parity-describe no_crypto next_word 3000 no_cipher arrives 100 2 (0, at_change) true [] 0
      unset 5 at_change at_change-MustWait (omega arith) (omega arith) arrives-Quiet refl
      (describe-fast no_crypto next_word 3000 (0, at_change) true [] 0 unset)

abbrev silent : Sleeps (fast_ops no_cipher)
silent = record { aborted = λ n. false; timed_out = λ n. leb 50 n; meanwhile = λ n k. k }

await_parity-late_example :
    (k' : FastEcm) × (await_parity (fast_ops no_cipher) silent 100 2 (5, at_change)
      ≡ some (true, (5, k')))
    × ((pid' parity' : ℕ) → (set_fast_ecm_cw_parity pid' parity' false k').0.ready ≡ true)
await_parity-late_example =
    await_parity-late no_cipher silent 100 2 5 at_change at_change-MustWait
      (record { times_out = λ n h. ground arith })
      (λ i lo hi. record { not_aborted = refl; kept = λ k. refl })

-- What the key answers before, while and after it waits.
active_before : get_active_parity 100 at_change ≡ (1, 1)
unfolding get_active_parity find
active_before = refl

not_ready : (set_fast_ecm_cw_parity 100 2 false at_change).0.ready ≡ false
unfolding set_fast_ecm_cw_parity find
not_ready = refl

forced : (set_fast_ecm_cw_parity 100 2 true at_change).1.activ_parity ≡ (100, 2) ∷ []
unfolding set_fast_ecm_cw_parity insert
forced = refl
