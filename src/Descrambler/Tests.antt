-- ===== src/Descrambler/Tests.antt =====
-- Runs of the pid maps on small inputs, and the theorems about them at concrete maps.
use vdr_plugin_dvbapi.Prelude.{
  ℕ, ◌≡◌, refl, List, [], ◌∷◌, some, none, Option, true, get_or, erase, nat_ord,
}
use vdr_plugin_dvbapi.Descrambler.{AdapterPidMap, init_parity, passes, pass}
use vdr_plugin_dvbapi.Descrambler.Parity.{IsClear, init_parity-IsClear}

abbrev two_pids : ℕ → AdapterPidMap
two_pids a = (100, 3) ∷ (200, 4) ∷ []

-- A key store that holds the service ids, which the start of a parity leaves as they are.
abbrev sid_at : List (Option ℕ) → ℕ → Option ℕ
sid_at keys i = get_or keys i none

abbrev keep : ℕ → List (Option ℕ) → List (Option ℕ)
keep i keys = keys

abbrev store : List (Option ℕ)
store = some 10 ∷ some 20 ∷ some 10 ∷ []

deletes_both :
    init_parity sid_at keep (some 10) none true store ((100, 0) ∷ (101, 1) ∷ (102, 2) ∷ [])
    ≡ some (store, (101, 1) ∷ [])
unfolding init_parity passes pass erase
deletes_both = refl

init_parity-IsClear_example :
    (keys' : List (Option ℕ)) × (m' : AdapterPidMap) × (init_parity sid_at keep
        (some 10)
        none
        true
        store
        ((100, 0) ∷ (101, 1) ∷ [])
      ≡ some (keys', m'))
    × IsClear sid_at keep (some 10) none keys' m'
init_parity-IsClear_example =
    init_parity-IsClear sid_at keep (some 10) none store ((100, 0) ∷ (101, 1) ∷ [])
