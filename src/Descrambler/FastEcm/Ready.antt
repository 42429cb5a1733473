-- ===== src/Descrambler/FastEcm/Ready.antt =====
-- When `set_FastECM_CW_Parity` finds no control word, and what makes it find one.
use vdr_plugin_dvbapi.Prelude.{
  ℕ, ◌+◌, ◌≤◌, ◌<◌, ◌≡◌, ◌≢◌, ◌↔◌, ◌⊎◌, Bool, true, false, List, insert, find-insert, nat_ord,
  if◌then◌else◌, arith,
}
use vdr_plugin_dvbapi.Descrambler.FastEcm.{
  FastEcm, parity_of, set_fast_ecm_cw_parity, set_active_parity2, note_control_word, init_fast_ecm,
}

-- The pid goes from a parity that is known to another, which is not that of the newest control word,
-- and the control words of both parities came half a second apart or more.
pub record MustWait (pid parity : ℕ) (k : FastEcm) : Type 0 where
  pub some_pid : 0 < pid
  pub odd_came : 0 < k.odd_time
  pub even_came : 0 < k.even_time
  pub known : parity_of pid k.activ_parity ≢ 0
  pub changes : parity_of pid k.activ_parity ≢ parity
  pub older : k.next_parity ≢ parity
  pub apart : (k.odd_time + 500 ≤ k.even_time) ⊎ (k.even_time + 500 ≤ k.odd_time)

-- Once an odd control word is noted, the parity of the newest is known.
abbrev pub IsNoted : FastEcm → Type 0
IsNoted k = (k.odd_time ≡ 0) ⊎ (0 < k.next_parity)

init_fast_ecm-IsNoted : (init_csa : Bool) (k : FastEcm) → IsNoted (init_fast_ecm init_csa k)
unfolding init_fast_ecm
init_fast_ecm-IsNoted init_csa k = ground arith

note_control_word-IsNoted :
    (odd : Bool) (now : ℕ) (k : FastEcm) → IsNoted (note_control_word odd now k)
unfolding note_control_word
note_control_word-IsNoted odd now k = ground arith

set_fast_ecm_cw_parity-IsNoted :
    (pid parity : ℕ) (force : Bool) (k : FastEcm)
    → IsNoted k
    → IsNoted (set_fast_ecm_cw_parity pid parity force k).1
unfolding set_fast_ecm_cw_parity
set_fast_ecm_cw_parity-IsNoted pid parity force k h = ground arith

-- Such a call returns 0.
pub waits :
    (pid parity : ℕ) (k : FastEcm)
    → MustWait pid parity k
    → (set_fast_ecm_cw_parity pid parity false k).0.ready ≡ false
unfolding set_fast_ecm_cw_parity
waits pid parity k w = ground arith

must_wait :
    (pid parity : ℕ) (force : Bool) (k : FastEcm)
    → IsNoted k
    → (set_fast_ecm_cw_parity pid parity force k).0.ready ≡ false
    → (force ≡ false) × MustWait pid parity k
unfolding set_fast_ecm_cw_parity
must_wait pid parity force k noted e = ground arith

-- set_FastECM_CW_Parity returns 0 if and only if it is not forced, and the pid, whose parity is known,
-- changes to one that is not that of the newest control word, while the last control words of both
-- parities have come and are 500 ms apart or more, whichever was first. The key has a newest parity
-- once an odd control word is noted.
pub set_fast_ecm_cw_parity-MustWait :
    (pid parity : ℕ) (force : Bool) (k : FastEcm)
    → IsNoted k
    → ((set_fast_ecm_cw_parity pid parity force k).0.ready ≡ false)
      ↔ ((force ≡ false) × MustWait pid parity k)
set_fast_ecm_cw_parity-MustWait pid parity force k noted =
    (must_wait pid parity force k noted, λ h. rw (h.0) (waits pid parity k h.1))

parity_of-insert :
    (pid parity : ℕ) (m : List (ℕ × ℕ)) → parity_of pid (insert pid parity m) ≡ parity
parity_of-insert pid parity m = ground (arith, find-insert pid pid parity m)

-- A call that has to wait notes the parity of the pid and no more.
pub waits_same :
    (pid parity : ℕ) (k : FastEcm)
    → MustWait pid parity k
    → (set_fast_ecm_cw_parity pid parity false k).1 ≡ set_active_parity2 pid parity k
unfolding set_fast_ecm_cw_parity
waits_same pid parity k w = ground arith

pub set_active_parity2-MustWait :
    (pid parity : ℕ) (k : FastEcm)
    → MustWait pid parity k
    → MustWait pid parity (set_active_parity2 pid parity k)
unfolding set_active_parity2
set_active_parity2-MustWait pid parity k w = ground arith

-- The parity of a control word.
abbrev pub cw_parity : Bool → ℕ
cw_parity odd = if odd then 2 else 1

-- Once a control word of the parity comes, the call succeeds and the pid has the parity.
pub note_control_word-ready :
    (pid now : ℕ) (odd : Bool) (k : FastEcm)
    → MustWait pid (cw_parity odd) k
    → 0 < now
    → let r = set_fast_ecm_cw_parity pid (cw_parity odd) false (note_control_word odd now k) in
      (r.0.ready ≡ true)
      × (parity_of pid r.1.activ_parity ≡ cw_parity odd)
      × (r.1.next_parity ≡ cw_parity odd)
unfolding set_fast_ecm_cw_parity note_control_word
note_control_word-ready pid now odd k w later =
    ground (arith, parity_of-insert pid (cw_parity odd) k.activ_parity)

-- A key whose parities are reset makes no pid wait until control words of both have come.
pub init_fast_ecm-ready :
    (pid parity : ℕ) (force : Bool) (k : FastEcm)
    → (set_fast_ecm_cw_parity pid parity force (init_fast_ecm false k)).0.ready ≡ true
unfolding set_fast_ecm_cw_parity init_fast_ecm
init_fast_ecm-ready pid parity force k = ground arith
