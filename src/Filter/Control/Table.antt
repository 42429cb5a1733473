-- ===== src/Filter/Control/Table.antt =====
-- The table of filters as the set of what OSCam has set: adapter, pid, demux and filter number.
use vdr_plugin_dvbapi.Prelude.{
  ℕ, ◌≡◌, refl, ap, ◌∙◌, Bool, true, false, not, ◌&&◌, ◌||◌, List, [], ◌∷◌, ◌==◌, arith, Option,
  none, some, Bool-cases, inl, inr, if◌then◌else◌, ltb_iff, ◌<◌, find, find-insert, find-erase,
  pair_ord, same, same_iff, Option-cases,
}
use vdr_plugin_dvbapi.Filter.{DmxFilter, PidFilters, PidMap, max_csa_pid}
use vdr_plugin_dvbapi.Filter.Control.{
  upsert, remove_filter, start_filter, stop_filter, without_filter, set_filter, get_or_new,
}
use vdr_plugin_dvbapi.Filter.Control.Tidy.{
  has_filter, IsTidy, has_filter-upsert, has_filter-remove_filter, remove_filter-AreDistinct,
  remove_filter-none,
}

abbrev pub has_in : ℕ → ℕ → Option PidFilters → Bool
has_in demux num none = false
has_in demux num (some pf) = has_filter demux num pf.filters

-- Whether the filter is in the table.
pub has : PidMap → ℕ × ℕ → ℕ → ℕ → Bool
has m key demux num = has_in demux num (find key m)

has_filter-get_or_new :
    (d n : ℕ) (o : Option PidFilters) → has_filter d n (get_or_new o).filters ≡ has_in d n o
unfolding has_filter
has_filter-get_or_new d n none = refl
has_filter-get_or_new d n (some pf) = refl

-- A filter that is not there makes no difference to the others.
has_filter_gone :
    (demux num d n : ℕ) (gs : List DmxFilter)
    → has_filter demux num gs ≡ false
    → has_filter d n gs ≡ (not (demux == d && num == n) && has_filter d n gs)
has_filter_gone demux num d n gs h = elim (Bool-cases (demux == d && num == n)) [
  | inl e ↦ rw e (same_number (ground arith))
  | inr e ↦ rw e refl
]
  where
    same_number : (demux ≡ d) × (num ≡ n) → has_filter d n gs ≡ false
    same_number p = rw (← p.0, ← p.1) h

not-or : (a b : Bool) → (not a && (a || b)) ≡ (not a && b)
not-or true b = refl
not-or false b = refl

false_and : (a : Bool) → false ≡ (a && false)
false_and true = refl
false_and false = refl

module _ (adapter pid demux num : ℕ) (m : PidMap) where
  abbrev key : ℕ × ℕ
  key = (adapter, pid)

  has-start_filter :
      (flt mask : List ℕ) (k : ℕ × ℕ) (d n : ℕ)
      → has (start_filter adapter pid demux num flt mask m) k d n
        ≡ ((same k key && (demux == d && num == n)) || has m k d n)
  unfolding has start_filter
  has-start_filter flt mask k d n =
      let pf = get_or_new (find key m) in
      ap (has_in d n)
        (find-insert key k (record pf { filters = upsert demux num flt mask pf.filters }) m)
      ∙ elim (Bool-cases (same k key)) [
        | inl hit ↦
            rw (hit, (same_iff k key).0 hit)
              (has_filter-upsert demux num d n flt mask pf.filters
                ∙ ap (λ b. (demux == d && num == n) || b) (has_filter-get_or_new d n (find key m)))
        | inr miss ↦ rw miss refl
      ]

  has-without_filter :
      (pf : PidFilters) (gs : List DmxFilter) (k : ℕ × ℕ) (d n : ℕ)
      → has (without_filter adapter pid pf (some gs) m) k d n
        ≡ (if same k key then has_filter d n gs else has m k d n)
  unfolding has without_filter has_filter
  has-without_filter pf [] k d n =
      ap (has_in d n) (find-erase key k m)
      ∙ elim (Bool-cases (same k key)) [ inl e ↦ rw e refl | inr e ↦ rw e refl ]
  has-without_filter pf (f ∷ fs) k d n =
      ap (has_in d n) (find-insert key k (record pf { filters = f ∷ fs }) m)
      ∙ elim (Bool-cases (same k key)) [ inl e ↦ rw e refl | inr e ↦ rw e refl ]

  has-removed :
      (pf : PidFilters) (r : Option (List DmxFilter)) (k : ℕ × ℕ) (d n : ℕ)
      → IsTidy m
      → find key m ≡ some pf
      → remove_filter demux num pf.filters ≡ r
      → has (without_filter adapter pid pf r m) k d n
        ≡ (not (same k key && (demux == d && num == n)) && has m k d n)
  unfolding has without_filter
  has-removed pf r k d n tidy e removed = elim (Bool-cases (same k key)) [
    | inl hit ↦
        let here : has m k d n ≡ has_filter d n pf.filters =
          ap (λ j. has_in d n (find j m)) ((same_iff k key).0 hit) ∙ ap (has_in d n) e in
        rw (hit, here) (at_key r removed hit here)
    | inr miss ↦ rw miss (elsewhere r miss)
  ]
    where
      elsewhere :
          (r : Option (List DmxFilter))
          → same k key ≡ false
          → has (without_filter adapter pid pf r m) k d n ≡ has m k d n
      elsewhere none miss = refl
      elsewhere (some gs) miss = has-without_filter pf gs k d n ∙ rw miss refl

      at_key :
          (r : Option (List DmxFilter))
          → remove_filter demux num pf.filters ≡ r
          → same k key ≡ true
          → has m k d n ≡ has_filter d n pf.filters
          → has (without_filter adapter pid pf r m) k d n
            ≡ (not (demux == d && num == n) && has_filter d n pf.filters)
      at_key none r hit here =
          here
          ∙ has_filter_gone demux num d n pf.filters (remove_filter-none demux num pf.filters r)
      at_key (some gs) r hit here =
          has-without_filter pf gs k d n
          ∙ rw (hit, has_filter-remove_filter demux num d n pf.filters gs r, not-or)
              (has_filter_gone demux num d n gs
                (remove_filter-AreDistinct demux num pf.filters gs
                  ((tidy adapter pid pf e).distinct) r).1)

  has-stop_filter :
      (k : ℕ × ℕ) (d n : ℕ)
      → IsTidy m
      → has (stop_filter adapter pid demux num m) k d n
        ≡ (not (same k key && (demux == d && num == n)) && has m k d n)
  unfolding stop_filter has
  has-stop_filter k d n tidy = elim (Option-cases (find key m)) [
    | inl e ↦ rw (e, stop_filter) (absent e)
    | inr (pf, e) ↦ rw (e, stop_filter) (has-removed pf _ k d n tidy e refl)
  ]
    where
      absent :
          find key m ≡ none
          → has m k d n ≡ (not (same k key && (demux == d && num == n)) && has m k d n)
      absent e = elim (Bool-cases (same k key)) [
        | inl hit ↦
            let nothing : has m k d n ≡ false =
              ap (λ j. has_in d n (find j m)) ((same_iff k key).0 hit) ∙ ap (has_in d n) e in
            rw nothing (false_and (not (same k key && (demux == d && num == n))))
        | inr miss ↦ rw miss refl
      ]

-- `SetFilter` is insertion into, and removal from, the set of filters: with `start == 1` and both
-- arrays the filter is there afterwards, with `start == 0` it is not, and every other filter of any
-- adapter and pid is there exactly if it was before.
pub has-set_filter :
    (adapter pid demux num : ℕ) (flt mask : List ℕ) (m : PidMap) (k : ℕ × ℕ) (d n : ℕ)
    → IsTidy m
    → pid < max_csa_pid
    → (has (set_filter adapter pid 1 demux num (some flt) (some mask) m).0 k d n
        ≡ ((same k (adapter, pid) && (demux == d && num == n)) || has m k d n))
      × (has (set_filter adapter pid 0 demux num none none m).0 k d n
          ≡ (not (same k (adapter, pid) && (demux == d && num == n)) && has m k d n))
unfolding set_filter
has-set_filter adapter pid demux num flt mask m k d n tidy h = rw ((ltb_iff pid max_csa_pid).1 h) (
  has-start_filter adapter pid demux num m flt mask k d n,
  has-stop_filter adapter pid demux num m k d n tidy,
)
