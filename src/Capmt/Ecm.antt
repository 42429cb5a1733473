-- ===== src/Capmt/Ecm.antt =====
-- The ECM information of the services: `UpdateEcmInfo`, `GetCAIDFromSid`, `GetCAIDFromPid` and
-- `FillEcmInfo`.
use vdr_plugin_dvbapi.Prelude.{
  ℕ, ◌≡◌, refl, ◌&&◌, Option, none, some, List, [], ◌∷◌, ◌==◌, if◌then◌else◌, arith, Bool-cases,
  Option-cases, ◌⊎◌, inl, inr,
}
use vdr_plugin_dvbapi.Capmt.{
  PmtObj, EcmInfo, find_service, update_ecm_info, find_pid, get_caid_from_pid,
}
use vdr_plugin_dvbapi.Capmt.Services.{IsTable}

abbrev pub with_info : EcmInfo → Option PmtObj → Option PmtObj
with_info info none = none
with_info info (some p) = some (record p { ecm = info })

-- ECM information is stored with the service that it is for, and changes nothing else in the table.
find_service-update_ecm_info :
    (adapter sid : ℕ) (info : EcmInfo) (ps : List PmtObj) (a s : ℕ)
    → find_service a s (update_ecm_info adapter sid info ps) ≡ (
        if sid == s && adapter == a
        then with_info info (find_service a s ps)
        else find_service a s ps)
unfolding find_service update_ecm_info
find_service-update_ecm_info adapter sid info [] a s = ground arith
find_service-update_ecm_info adapter sid info (p ∷ ps) a s =
    ground (arith, find_service-update_ecm_info adapter sid info ps a s)

update_ecm_info-IsTable :
    (adapter sid : ℕ) (info : EcmInfo) (ps : List PmtObj)
    → IsTable ps
    → IsTable (update_ecm_info adapter sid info ps)
unfolding update_ecm_info
update_ecm_info-IsTable adapter sid info [] t = tt
update_ecm_info-IsTable adapter sid info (p ∷ ps) t = ground (
  arith,
  update_ecm_info-IsTable adapter sid info ps t.2,
  find_service-update_ecm_info adapter sid info ps p.adapter p.sid,
)

find_pid_service :
    (adapter pid : ℕ) (ps : List PmtObj) (p : PmtObj)
    → IsTable ps
    → find_pid adapter pid ps ≡ some p
    → (find_service adapter p.sid ps ≡ some p) × (p.ecm.pid ≡ pid) × (p.adapter ≡ adapter)
unfolding find_pid find_service
find_pid_service adapter pid [] p t e = ground arith
find_pid_service adapter pid (q ∷ ps) p t e = ground (arith, find_pid_service adapter pid ps p t.2)

-- What `GetCAIDFromPid` answers comes from the service that it names: that stands in the list for
-- the adapter, with the ECM pid asked for. Where there is none, both answers are 0.
get_caid_from_pid_service :
    (adapter pid : ℕ) (ps : List PmtObj)
    → IsTable ps
    → (get_caid_from_pid adapter pid ps ≡ (0, 0))
      ⊎ ((p : PmtObj) × (find_service adapter p.sid ps ≡ some p)
          × (p.ecm.pid ≡ pid)
          × (get_caid_from_pid adapter pid ps ≡ (p.ecm.caid, p.sid)))
unfolding get_caid_from_pid
get_caid_from_pid_service adapter pid ps t = elim (Option-cases (find_pid adapter pid ps)) [
  | inl missing ↦ inl (ground arith)
  | inr (p, found) ↦ elim (Bool-cases (pid == 0)) [
    | inl z ↦ inl (rw z refl)
    | inr ne ↦
        let h = find_pid_service adapter pid ps p t found in
        inr (p, h.0, h.1, rw (ne, found, get_caid_from_pid) refl)
  ]
]
