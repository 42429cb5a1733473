-- ===== src/Filter/Packets/Empty.antt =====
-- `Analyze` on an empty table.
use vdr_plugin_dvbapi.Prelude.{ℕ, ◌≡◌, refl, Bool-cases, inl, inr, List, [], ◌||◌, leb, ◌==◌, find}
use vdr_plugin_dvbapi.Filter.{max_csa_pid}
use vdr_plugin_dvbapi.Filter.Packets.{analyze, packet_pid}

pub analyze-empty :
    (caid_of_pid : ℕ → ℕ → ℕ) (adapter : ℕ) (buf : List ℕ)
    → (analyze caid_of_pid adapter buf []).0 ≡ []
unfolding analyze find
analyze-empty caid_of_pid adapter buf =
    elim (Bool-cases (leb max_csa_pid (packet_pid buf) || packet_pid buf == 0)) [
      | inl e ↦ rw e refl
      | inr e ↦ rw e refl
    ]
