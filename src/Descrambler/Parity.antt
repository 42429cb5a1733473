-- ===== src/Descrambler/Parity.antt =====
-- `Init_Parity` of DeCSA.cpp: its rounds and what they delete.
use vdr_plugin_dvbapi.Prelude.{
  ℕ, zero, suc, ◌≤◌, ◌<◌, ◌≡◌, ◌⊎◌, ◌∙◌, refl, ap, inl, inr, Bool-cases, true, false, ◌||◌, Option,
  none, some, [], ◌∷◌, All, length, erase, nat_ord, arith,
}
use vdr_plugin_dvbapi.Descrambler.{AdapterPidMap, pass, passes, init_parity, is_sid, is_slot}

erase_shorter : (pid : ℕ) (m : AdapterPidMap) → length (erase pid m) ≤ length m
unfolding erase
erase_shorter pid [] = omega arith
erase_shorter pid ((j, i) ∷ m) = ground (arith, erase_shorter pid m)

erase_found :
    (pid idx : ℕ) (m : AdapterPidMap) → length (erase pid ((pid, idx) ∷ m)) < suc (length m)
unfolding erase
erase_found pid idx m = ground (arith, erase_shorter pid m)

erase_behind :
    (q pid idx : ℕ) (m : AdapterPidMap)
    → length (erase q m) < length m
    → length (erase q ((pid, idx) ∷ m)) < suc (length m)
unfolding erase
erase_behind q pid idx m h = ground (arith)

module _ {K : Type 0} (sid_of : K → ℕ → Option ℕ) (init : ℕ → K → K) (sid slot : Option ℕ) where
  -- No pid is left with a key of the service, and none with the key of the slot.
  abbrev pub IsClear : K → AdapterPidMap → Type 0
  IsClear keys = All (λ e.
      (is_sid sid_of init sid slot true keys e.1 || is_slot sid_of init sid slot true e.1) ≡ false)

  -- A run of the inner loop finds nothing to delete, or breaks off with a pid that is there.
  pass_cases :
      (keys : K) (m : AdapterPidMap)
      → ((pass sid_of init sid slot true keys m ≡ (keys, none)) × IsClear keys m)
        ⊎ ((keys' : K) × (pid : ℕ) × (pass sid_of init sid slot true keys m ≡ (keys', some pid))
            × (length (erase pid m) < length m))
  unfolding pass erase
  pass_cases keys [] = inl (refl, tt)
  pass_cases keys ((pid, idx) ∷ m) =
      let found = is_sid sid_of init sid slot true keys idx in
      let here = is_slot sid_of init sid slot true idx in
      elim (Bool-cases found) [
        | inl e ↦ inr (init idx keys, pid, rw e refl, erase_found pid idx m)
        | inr e ↦ elim (Bool-cases here) [
          | inl f ↦ inr (init idx keys, pid, rw e (rw f refl), erase_found pid idx m)
          | inr f ↦ elim (pass_cases keys m) [
            | inl (p, clear) ↦ inl (rw e (rw f p), (rw e f, clear))
            | inr (keys', q, p, shorter) ↦
                inr (keys', q, rw e (rw f p), erase_behind q pid idx m shorter)
          ]
        ]
      ]

  passes-done :
      (fuel : ℕ) (keys : K) (m : AdapterPidMap)
      → pass sid_of init sid slot true keys m ≡ (keys, none)
      → passes sid_of init sid slot true (suc fuel) keys m ≡ some (keys, m)
  unfolding passes
  passes-done fuel keys m e = rw (e, passes) (ap (λ (r : K × Option ℕ). some (r.0, m)) e)

  passes-next :
      (fuel : ℕ) (keys keys' : K) (pid : ℕ) (m : AdapterPidMap)
      → pass sid_of init sid slot true keys m ≡ (keys', some pid)
      → passes sid_of init sid slot true (suc fuel) keys m
        ≡ passes sid_of init sid slot true fuel keys' (erase pid m)
  unfolding passes
  passes-next fuel keys keys' pid m e =
      rw (e, passes)
        (ap (λ (r : K × Option ℕ). passes sid_of init sid slot true fuel r.0 (erase pid m)) e)

  passes-IsClear :
      (fuel : ℕ) (keys : K) (m : AdapterPidMap)
      → length m < fuel
      → (keys' : K) × (m' : AdapterPidMap) × (passes sid_of init sid slot true fuel keys m
          ≡ some (keys', m'))
        × IsClear keys' m'
  passes-IsClear zero keys m h = absurd (omega arith)
  passes-IsClear (suc fuel) keys m h = elim (pass_cases keys m) [
    | inl (p, clear) ↦ (keys, m, passes-done fuel keys m p, clear)
    | inr (keys', pid, p, shorter) ↦
        let (keys'', m', e, clear) = passes-IsClear fuel keys' (erase pid m) (omega arith) in
        (keys'', m', passes-next fuel keys keys' pid m p ∙ e, clear)
  ]

  -- Init_Parity with bdelete ends within as many rounds as there are pids and one more, and then no
  -- pid has a key of the service or the key of the slot, whatever the start of a parity does to the
  -- keys.
  pub init_parity-IsClear :
      (keys : K) (m : AdapterPidMap)
      → (keys' : K) × (m' : AdapterPidMap) × (init_parity sid_of init sid slot true keys m
          ≡ some (keys', m'))
        × IsClear keys' m'
  unfolding init_parity
  init_parity-IsClear keys m = passes-IsClear (suc (length m)) keys m (omega arith)
