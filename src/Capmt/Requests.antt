-- ===== src/Capmt/Requests.antt =====
-- `CAPMT::ProcessSIDRequest` and the ECM information, as operations on the table of services.
use vdr_plugin_dvbapi.Prelude.{
  ℕ, ◌≡◌, ◌≢◌, refl, ap, ◌∙◌, Bool, true, false, ◌&&◌, none, some, List, [], ◌==◌, if◌then◌else◌,
  length, arith, Bool-cases, Option-cases, ◌⊎◌, inl, inr, not, ==_refl,
}
use vdr_plugin_dvbapi.Capmt.{
  PmtObj, remove_pmt, send_all, after_removal, process_sid_request, find_service,
}
use vdr_plugin_dvbapi.Capmt.Services.{
  IsTable, remove_pmt-none, find_service-remove_pmt, remove_pmt-IsTable, requested, requested-keys,
  find_service-with_entry, with_entry-IsTable, after_removal_list, after_removal_sent,
}

module _ (adapter_offset adapter sid ca_lm : ℕ) (capmt : List ℕ) (ps : List PmtObj)
    (table : IsTable ps) where
  abbrev result : List PmtObj × List (List ℕ)
  result = process_sid_request adapter_offset adapter sid ca_lm capmt ps

  -- The list that is left by the removal, and what is then done with it.
  data Removal : Type 0 where
    no_service : sid ≡ 0 → result ≡ (ps, []) → Removal
    nothing_to_stop :
        sid ≢ 0
        → find_service adapter sid ps ≡ none
        → requested adapter sid ca_lm capmt ≡ none
        → result ≡ (ps, [])
        → Removal
    removed :
        (r : Bool) (qs : List PmtObj)
        → sid ≢ 0
        → IsTable qs
        → ((a s : ℕ)
            → find_service a s qs
              ≡ (if sid == s && adapter == a then none else find_service a s ps))
        → (r ≡ false → qs ≡ ps)
        → result ≡ after_removal adapter_offset adapter sid ca_lm capmt r qs
        → Removal

  find_self :
      (a s : ℕ)
      → find_service adapter sid ps ≡ none
      → find_service a s ps ≡ (if sid == s && adapter == a then none else find_service a s ps)
  find_self a s h = elim (Bool-cases (sid == s && adapter == a)) [
    | inl hit ↦ rw hit (other_keys (ground arith))
    | inr miss ↦ rw miss refl
  ]
    where
      other_keys : (sid ≡ s) × (adapter ≡ a) → find_service a s ps ≡ none
      other_keys e = rw (← e.0, ← e.1) h

  removal : Removal
  removal = elim (Bool-cases (sid == 0)) [
    | inl e ↦ no_service (ground arith) (unfold process_sid_request in rw e refl)
    | inr ne ↦ elim (Option-cases (remove_pmt adapter sid ps)) [
      | inl absent ↦
          let missing = remove_pmt-none adapter sid ps absent in
          elim (Bool-cases (ca_lm == 0x05 && length capmt == 0)) [
            | inl stale ↦
                nothing_to_stop (ground arith) missing (ground arith) (
                  unfold process_sid_request in
                  rw (ne, absent, process_sid_request) (rw stale refl))
            | inr live ↦
                removed false ps (ground arith) table (λ a s. find_self a s missing) (λ _. refl)
                  (unfold process_sid_request in
                    rw (ne, absent, process_sid_request) (rw live refl))
          ]
      | inr (qs, found) ↦
          removed true qs (ground arith) (remove_pmt-IsTable adapter sid ps qs table found)
            (λ a s. find_service-remove_pmt adapter sid a s ps qs table found) (λ e. cc)
            (unfold process_sid_request in rw (ne, found, process_sid_request) refl)
    ]
  ]

  gone :
      (qs : List PmtObj)
      → ((a s : ℕ)
          → find_service a s qs ≡ (if sid == s && adapter == a then none else find_service a s ps))
      → find_service adapter sid qs ≡ none
  gone qs h = h adapter sid ∙ rw (==_refl sid, ==_refl adapter) refl

  keys :
      (p : PmtObj)
      → requested adapter sid ca_lm capmt ≡ some p
      → (p.sid ≡ sid) × (p.adapter ≡ adapter)
  keys = requested-keys adapter sid ca_lm capmt

  requests_after :
      (r : Bool) (qs : List PmtObj)
      → IsTable qs
      → sid ≢ 0
      → ((a s : ℕ)
          → find_service a s qs ≡ (if sid == s && adapter == a then none else find_service a s ps))
      → (a s : ℕ)
      → find_service a s (after_removal adapter_offset adapter sid ca_lm capmt r qs).0 ≡ (
          if sid == s && adapter == a
          then requested adapter sid ca_lm capmt
          else find_service a s ps)
  requests_after r qs t ne h a s =
      ap (find_service a s) (after_removal_list adapter_offset adapter sid ca_lm capmt r qs)
      ∙ find_service-with_entry adapter sid qs (gone qs h) (requested adapter sid ca_lm capmt) a s
          keys
      ∙ elim (Bool-cases (sid == s && adapter == a)) [
        | inl hit ↦ rw hit refl
        | inr miss ↦ rw miss (h a s ∙ rw miss refl)
      ]

  -- A request for a service replaces its entry by the new one, if list management and CA_PMT give
  -- one, and otherwise takes the entry out; every other service keeps its entry. A request for
  -- service 0 changes nothing.
  pub find_service-process_sid_request :
      (a s : ℕ)
      → find_service a s result.0 ≡ (
          if not (sid == 0) && (sid == s && adapter == a)
          then requested adapter sid ca_lm capmt
          else find_service a s ps)
  find_service-process_sid_request a s = elim removal [
    | no_service z e ↦ rw (e, z) refl
    | nothing_to_stop ne missing nothing e ↦ rw (e, not_zero ne, nothing) (find_self a s missing)
    | removed r qs ne t h same e ↦ rw (e, not_zero ne) (requests_after r qs t ne h a s)
  ]
    where
      not_zero : sid ≢ 0 → (sid == 0) ≡ false
      not_zero ne = ground arith

  -- No request brings a service into the list twice, or service 0.
  pub process_sid_request-IsTable : IsTable result.0
  process_sid_request-IsTable = elim removal [
    | no_service z e ↦ rw e table
    | nothing_to_stop ne missing nothing e ↦ rw e table
    | removed r qs ne t h same e ↦
        rw (e, after_removal_list adapter_offset adapter sid ca_lm capmt r qs)
          (with_entry-IsTable adapter sid qs (gone qs h) (requested adapter sid ca_lm capmt) ne t
            keys)
  ]

  -- OSCam always knows the list: a request sends the whole new list, or sends nothing and leaves the
  -- list as it was.
  process_sid_request_sent :
      (result.1 ≡ send_all adapter_offset result.0) ⊎ ((result.1 ≡ []) × (result.0 ≡ ps))
  process_sid_request_sent = elim removal [
    | no_service z e ↦ rw e (inr (refl, refl))
    | nothing_to_stop ne missing nothing e ↦ rw e (inr (refl, refl))
    | removed r qs ne t h same e ↦
        rw e (elim (after_removal_sent adapter_offset adapter sid ca_lm capmt r qs) [
          | inl told ↦ inl told
          | inr silent ↦ inr (silent.0, silent.1 ∙ same silent.2)
        ])
  ]
