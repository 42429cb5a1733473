-- ===== src/Capmt/Services.antt =====
-- The services in the list of `CAPMT`: each stands there once, and `ProcessSIDRequest` is an update
-- of the table of services.
use vdr_plugin_dvbapi.Prelude.{
  ℕ, ◌≡◌, ◌≢◌, refl, ◌∙◌, Bool, false, ◌&&◌, ◌||◌, Option, none, some, List, [], ◌∷◌, ◌++◌, ◌==◌,
  ltb, if◌then◌else◌, length, arith, Bool-cases, Option-cases, ◌⊎◌, inl, inr,
}
use vdr_plugin_dvbapi.Capmt.{
  PmtObj, is_service, remove_pmt, new_pmt, send_all, after_removal, find_service,
}

-- No service stands in the list twice, and none is service 0.
abbrev pub IsTable : List PmtObj → Type 0
IsTable [] = Unit
IsTable (p ∷ ps) = (find_service p.adapter p.sid ps ≡ none) × (p.sid ≢ 0) × IsTable ps

module _ (adapter sid : ℕ) where
  -- Without the service nothing is removed.
  pub remove_pmt_absent :
      (ps : List PmtObj) → find_service adapter sid ps ≡ none → remove_pmt adapter sid ps ≡ none
  unfolding remove_pmt find_service
  remove_pmt_absent [] h = refl
  remove_pmt_absent (p ∷ ps) h = ground (arith, remove_pmt_absent ps)

  pub remove_pmt-none :
      (ps : List PmtObj) → remove_pmt adapter sid ps ≡ none → find_service adapter sid ps ≡ none
  unfolding remove_pmt find_service
  remove_pmt-none [] h = refl
  remove_pmt-none (p ∷ ps) h = elim (Option-cases (remove_pmt adapter sid ps)) [
    | inl e ↦ ground (arith, remove_pmt-none ps e)
    | inr (qs, e) ↦ ground arith
  ]

  -- Removing a service takes it, and no other, out of the table.
  pub find_service-remove_pmt :
      (a s : ℕ) (ps qs : List PmtObj)
      → IsTable ps
      → remove_pmt adapter sid ps ≡ some qs
      → find_service a s qs ≡ (if sid == s && adapter == a then none else find_service a s ps)
  unfolding remove_pmt find_service
  find_service-remove_pmt a s [] qs h e = ground arith
  find_service-remove_pmt a s (p ∷ ps) qs h e = elim (Option-cases (remove_pmt adapter sid ps)) [
    | inl absent ↦ ground (arith, h.0)
    | inr (rest, found) ↦
        ground (arith, find_service-remove_pmt a s ps rest h.2 found, h.0, remove_pmt_absent ps)
  ]

  pub remove_pmt-IsTable :
      (ps qs : List PmtObj) → IsTable ps → remove_pmt adapter sid ps ≡ some qs → IsTable qs
  unfolding remove_pmt
  remove_pmt-IsTable [] qs h e = ground arith
  remove_pmt-IsTable (p ∷ ps) qs h e = elim (Option-cases (remove_pmt adapter sid ps)) [
    | inl absent ↦ ground arith
    | inr (rest, found) ↦ ground (
      arith,
      remove_pmt-IsTable ps rest h.2 found,
      find_service-remove_pmt p.adapter p.sid ps rest h.2 found,
    )
  ]

-- A new entry goes to the end.
find_service-append :
    (a s : ℕ) (ps : List PmtObj) (p : PmtObj)
    → find_service a s (ps ++ p ∷ []) ≡ elim (find_service a s ps) as (λ _. Option PmtObj) [
      | none ↦ if is_service a s p then some p else none
      | some q ↦ some q
    ]
unfolding find_service
find_service-append a s [] p = refl
find_service-append a s (q ∷ ps) p = ground (arith, find_service-append a s ps p)

append-IsTable :
    (ps : List PmtObj) (p : PmtObj)
    → IsTable ps
    → p.sid ≢ 0
    → find_service p.adapter p.sid ps ≡ none
    → IsTable (ps ++ p ∷ [])
unfolding find_service
append-IsTable [] p h k e = (refl, k, tt)
append-IsTable (q ∷ ps) p h k e =
    ground (arith, append-IsTable ps p h.2 k, find_service-append q.adapter q.sid ps p)

new_pmt-keys :
    (adapter sid : ℕ) (capmt : List ℕ) (p : PmtObj)
    → new_pmt adapter sid capmt ≡ some p
    → (p.sid ≡ sid) × (p.adapter ≡ adapter)
unfolding new_pmt
new_pmt-keys adapter sid capmt p h = ground arith

-- The entry that a request puts in place of the old one of its service.
abbrev pub requested : ℕ → ℕ → ℕ → List ℕ → Option PmtObj
requested adapter sid ca_lm capmt =
    if (ca_lm == 0x04 || ca_lm == 0x03) && ltb 0 (length capmt)
    then new_pmt adapter sid capmt
    else none

pub requested-keys :
    (adapter sid ca_lm : ℕ) (capmt : List ℕ) (p : PmtObj)
    → requested adapter sid ca_lm capmt ≡ some p
    → (p.sid ≡ sid) × (p.adapter ≡ adapter)
requested-keys adapter sid ca_lm capmt p h = ground (arith, new_pmt-keys adapter sid capmt p)

abbrev pub with_entry : List PmtObj → Option PmtObj → List PmtObj
with_entry ps none = ps
with_entry ps (some p) = ps ++ p ∷ []

module _ (adapter sid : ℕ) (ps : List PmtObj) (absent : find_service adapter sid ps ≡ none) where
  pub find_service-with_entry :
      (o : Option PmtObj) (a s : ℕ)
      → ((p : PmtObj) → o ≡ some p → (p.sid ≡ sid) × (p.adapter ≡ adapter))
      → find_service a s (with_entry ps o)
        ≡ (if sid == s && adapter == a then o else find_service a s ps)
  find_service-with_entry none a s keys = elim (Bool-cases (sid == s && adapter == a)) [
    | inl hit ↦ rw hit (other_keys (ground arith))
    | inr miss ↦ rw miss refl
  ]
    where
      other_keys : (sid ≡ s) × (adapter ≡ a) → find_service a s ps ≡ none
      other_keys e = rw (← e.0, ← e.1) absent
  find_service-with_entry (some p) a s keys =
      find_service-append a s ps p ∙ elim (Bool-cases (sid == s && adapter == a)) [
        | inl hit ↦ rw (hit, other_keys (ground arith)) (ground (arith, keys p refl))
        | inr miss ↦ rw miss (kept miss (find_service a s ps))
      ]
    where
      other_keys : (sid ≡ s) × (adapter ≡ a) → find_service a s ps ≡ none
      other_keys e = rw (← e.0, ← e.1) absent

      kept :
          (sid == s && adapter == a) ≡ false
          → (o : Option PmtObj)
          → elim o as (λ _. Option PmtObj) [
            | none ↦ if is_service a s p then some p else none
            | some q ↦ some q
          ]
            ≡ o
      kept miss none = ground (arith, keys p refl)
      kept miss (some q) = refl

  pub with_entry-IsTable :
      (o : Option PmtObj)
      → sid ≢ 0
      → IsTable ps
      → ((p : PmtObj) → o ≡ some p → (p.sid ≡ sid) × (p.adapter ≡ adapter))
      → IsTable (with_entry ps o)
  with_entry-IsTable none k t keys = t
  with_entry-IsTable (some p) k t keys =
      let e = keys p refl in append-IsTable ps p t (rw e.0 k) (rw (e.0, e.1) absent)

module _ (adapter_offset adapter sid ca_lm : ℕ) (capmt : List ℕ) where
  pub after_removal_list :
      (removed : Bool) (ps : List PmtObj)
      → (after_removal adapter_offset adapter sid ca_lm capmt removed ps).0
        ≡ with_entry ps (requested adapter sid ca_lm capmt)
  unfolding after_removal
  after_removal_list removed ps = ground arith

  -- OSCam is told the new list, or nothing where the list is as it was.
  pub after_removal_sent :
      (removed : Bool) (ps : List PmtObj)
      → let (qs, sent) = after_removal adapter_offset adapter sid ca_lm capmt removed ps in
        (sent ≡ send_all adapter_offset qs) ⊎ ((sent ≡ []) × (qs ≡ ps) × (removed ≡ false))
  unfolding after_removal
  after_removal_sent removed ps = ground arith
