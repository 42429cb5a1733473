-- ===== src/Descrambler/Batch/Finish/Tests.antt =====
-- `Decrypt` with a toy key that never gets its control word, and the theorem about it there.
use vdr_plugin_dvbapi.Prelude.{
  ℕ, ◌≡◌, Bool, true, false, Option, none, some, List, [], ◌∷◌, replicate,
}
use vdr_plugin_dvbapi.Descrambler.Batch.Finish.{CsaOps, Sleeps, Decrypted, decrypt_buffer}
use vdr_plugin_dvbapi.Descrambler.Batch.Finish.Ending.{decrypt_buffer-ends}

abbrev if_forced : Bool → ℕ → Option ℕ
if_forced true parity = some parity
if_forced false parity = none

-- The key is the parity that is forced, if any.
abbrev toy : CsaOps
toy = record {
  Key = Option ℕ;
  caid = λ k. 0x09C4;
  ecm_pid = λ k. none;
  set_caid_sid = λ caid sid k. k;
  set_cw_parity = λ pid parity force k. (false, if_forced force parity);
  init_parity2 = λ k. k;
  set_active_parity2 = λ pid parity k. k;
  decrypt_packets = λ ranges packets k. (true, (packets, k));
}

abbrev never : Sleeps toy
never = record { aborted = λ n. false; timed_out = λ n. false; meanwhile = λ n k. k }

abbrev buffer : List (List ℕ)
buffer = (0x47 ∷ 0 ∷ 100 ∷ 0x90 ∷ replicate 184 0) ∷ []

decrypt_buffer-ends_example :
    (r : Decrypted toy) × (decrypt_buffer toy 32 true
        (λ k. 0)
        (λ k. false)
        (λ pid. some 3)
        (λ k odd b. b)
        (λ k odd b. none)
        never
        true
        0
        []
        (some none)
        buffer
      ≡ some r)
decrypt_buffer-ends_example =
    decrypt_buffer-ends toy 32 true (λ k. 0) (λ k. false) (λ pid. some 3) (λ k odd b. b)
      (λ k odd b. none) never true 0 [] (some none) buffer
