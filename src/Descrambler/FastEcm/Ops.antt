-- ===== src/Descrambler/FastEcm/Ops.antt =====
-- DeCSA.cpp: the methods of `DeCSAKey` that pass on to FFdecsa, as `Decrypt` calls them on a key that
-- is there. Beside what FastECM notes, a key has the schedules of its control words.
use vdr_plugin_dvbapi.Prelude.{ℕ, Bool, true, false, some, List}
use vdr_plugin_dvbapi.Descrambler.Batch.Finish.{CsaOps}
use vdr_plugin_dvbapi.Descrambler.Keys.{Crypto}
use vdr_plugin_dvbapi.Descrambler.FastEcm.{
  FastEcm, init_fast_ecm, set_fast_ecm_caid_sid, set_active_parity2, set_fast_ecm_cw_parity,
  note_control_word,
}

-- `decrypt` is the cipher of FFdecsa.
module _ {C : Type 0} (decrypt : List (ℕ × ℕ) → List (List ℕ) → C → Bool × List (List ℕ)) where
  abbrev pub fast_ops : CsaOps
  fast_ops = record {
    Key = C × FastEcm;
    caid = λ k. k.1.csa_caid;
    ecm_pid = λ k. some k.1.csa_pid;
    set_caid_sid = λ caid sid k. (k.0, set_fast_ecm_caid_sid caid sid k.1);
    set_cw_parity = λ pid parity force k.
        let (answer, k') = set_fast_ecm_cw_parity pid parity force k.1 in (answer.ready, (k.0, k'));
    init_parity2 = λ k. (k.0, init_fast_ecm false k.1);
    set_active_parity2 = λ pid parity k. (k.0, set_active_parity2 pid parity k.1);
    decrypt_packets =
        λ ranges packets k. let (any, out) = decrypt ranges packets k.0 in (any, (out, k));
  }

-- The setters of a control word in FFdecsa, over `set_word`, which makes the schedule, and the tick;
-- OpenSSL and cscrypt are those of `base`.
abbrev pub fast_crypto : {C : Type 0} → Crypto → (Bool → List ℕ → ℕ → C → C) → ℕ → Crypto
fast_crypto {C = C} base set_word now = record {
  CsaKey = C × FastEcm;
  AesCtx = base.AesCtx;
  DesKey = base.DesKey;
  set_even_cw = λ cw ecm k. (set_word false cw ecm k.0, note_control_word false now k.1);
  set_odd_cw = λ cw ecm k. (set_word true cw ecm k.0, note_control_word true now k.1);
  aes_set_key = base.aes_set_key;
  aes_update = base.aes_update;
  des_set_key = base.des_set_key;
  des_block = base.des_block;
}
