-- ===== src/Filter/Control/Tidy.antt =====
-- What `SetFilter` keeps of the table: no pid without a filter, no number twice at a pid.
use mathlib.Core.Option.{some-injective}
use vdr_plugin_dvbapi.Prelude.{
  ℕ, ◌≡◌, ◌≢◌, refl, subst, sym, ◌∙◌, Bool, true, false, ◌&&◌, ◌||◌, List, [], ◌∷◌, ◌==◌, arith,
  Option, none, some, ltb, Bool-cases, inl, inr, if◌then◌else◌, find, insert, erase, find-insert,
  find-erase, pair_ord, same, Option-cases,
}
use vdr_plugin_dvbapi.Filter.{DmxFilter, PidFilters, PidMap, max_csa_pid}
use vdr_plugin_dvbapi.Filter.Control.{
  is_filter, store, upsert, remove_filter, start_filter, without_filter, stop_filter, change_filter,
  set_filter, get_or_new,
}

unfoldable pub has_filter : ℕ → ℕ → List DmxFilter → Bool
has_filter demux num [] = false
has_filter demux num (f ∷ fs) = is_filter demux num f || has_filter demux num fs

-- No two filters have the same number.
abbrev pub AreDistinct : List DmxFilter → Type 0
AreDistinct [] = Unit
AreDistinct (f ∷ fs) = (has_filter f.demux_id f.filter_num fs ≡ false) × AreDistinct fs

module _ (demux num : ℕ) where
  -- Storing a filter adds its number and no other.
  pub has_filter-upsert :
      (d n : ℕ) (flt mask : List ℕ) (fs : List DmxFilter)
      → has_filter d n (upsert demux num flt mask fs)
        ≡ ((demux == d && num == n) || has_filter d n fs)
  unfolding has_filter upsert store
  has_filter-upsert d n flt mask [] = ground arith
  has_filter-upsert d n flt mask (f ∷ fs) = ground (arith, has_filter-upsert d n flt mask fs)

  upsert-AreDistinct :
      (flt mask : List ℕ) (fs : List DmxFilter)
      → AreDistinct fs
      → AreDistinct (upsert demux num flt mask fs)
  unfolding upsert has_filter store
  upsert-AreDistinct flt mask [] h = (refl, tt)
  upsert-AreDistinct flt mask (f ∷ fs) h = ground (
    arith,
    upsert-AreDistinct flt mask fs h.1,
    has_filter-upsert f.demux_id f.filter_num flt mask fs,
  )

  -- Removing a filter removes its number and no other.
  pub has_filter-remove_filter :
      (d n : ℕ) (fs gs : List DmxFilter)
      → remove_filter demux num fs ≡ some gs
      → has_filter d n fs ≡ ((demux == d && num == n) || has_filter d n gs)
  unfolding has_filter remove_filter
  has_filter-remove_filter d n [] gs e = ground arith
  has_filter-remove_filter d n (f ∷ fs) gs e = elim (Option-cases (remove_filter demux num fs)) [
    | inl none_left ↦ ground arith
    | inr (rest, found) ↦ ground (arith, has_filter-remove_filter d n fs rest found)
  ]

  pub remove_filter-AreDistinct :
      (fs gs : List DmxFilter)
      → AreDistinct fs
      → remove_filter demux num fs ≡ some gs
      → AreDistinct gs × (has_filter demux num gs ≡ false)
  unfolding has_filter remove_filter
  remove_filter-AreDistinct [] gs h e = ground arith
  remove_filter-AreDistinct (f ∷ fs) gs h e = elim (Option-cases (remove_filter demux num fs)) [
    | inl none_left ↦ ground arith
    | inr (rest, found) ↦ ground (
      arith,
      remove_filter-AreDistinct fs rest h.1 found,
      has_filter-remove_filter f.demux_id f.filter_num fs rest found,
    )
  ]

  pub remove_filter-none :
      (fs : List DmxFilter) → remove_filter demux num fs ≡ none → has_filter demux num fs ≡ false
  unfolding has_filter remove_filter
  remove_filter-none [] e = refl
  remove_filter-none (f ∷ fs) e = elim (Option-cases (remove_filter demux num fs)) [
    | inl none_left ↦ ground (arith, remove_filter-none fs none_left)
    | inr (rest, found) ↦ ground arith
  ]

-- A table as `SetFilter` leaves it: a pid in it has a filter, and no number twice.
pub record IsTidyEntry (pf : PidFilters) : Type 0 where
  pub used : pf.filters ≢ []
  pub distinct : AreDistinct pf.filters

abbrev pub IsTidy : PidMap → Type 0
IsTidy m = (adapter pid : ℕ) (pf : PidFilters) → find (adapter, pid) m ≡ some pf → IsTidyEntry pf

insert-IsTidy :
    (adapter pid : ℕ) (pf : PidFilters) (m : PidMap)
    → IsTidyEntry pf
    → IsTidy m
    → IsTidy (insert (adapter, pid) pf m)
insert-IsTidy adapter pid pf m h all a p pf' e =
    let key : ℕ × ℕ = (adapter, pid) in
    let law = sym (find-insert key (a, p) pf m) ∙ e in
    elim (Bool-cases (same {K = ℕ × ℕ} (a, p) key)) [
      | inl hit ↦ subst IsTidyEntry (some-injective pf pf' (rw hit at law)) h
      | inr miss ↦ all a p pf' (rw miss at law)
    ]

erase-IsTidy : (adapter pid : ℕ) (m : PidMap) → IsTidy m → IsTidy (erase (adapter, pid) m)
erase-IsTidy adapter pid m all a p pf' e =
    let key : ℕ × ℕ = (adapter, pid) in
    let law = sym (find-erase key (a, p) m) ∙ e in
    elim (Bool-cases (same {K = ℕ × ℕ} (a, p) key)) [
      | inl hit ↦ cc (rw hit at law)
      | inr miss ↦ all a p pf' (rw miss at law)
    ]

upsert-ne-nil :
    (demux num : ℕ) (flt mask : List ℕ) (fs : List DmxFilter) → upsert demux num flt mask fs ≢ []
unfolding upsert
upsert-ne-nil demux num flt mask [] e = cc
upsert-ne-nil demux num flt mask (f ∷ fs) e = ground arith

module _ (adapter pid demux num : ℕ) (m : PidMap) (tidy : IsTidy m) where
  get_or_new-AreDistinct : AreDistinct (get_or_new (find (adapter, pid) m)).filters
  get_or_new-AreDistinct = elim (Option-cases (find (adapter, pid) m)) [
    | inl e ↦ rw e tt
    | inr (pf, e) ↦ rw e ((tidy adapter pid pf e).distinct)
  ]

  start_filter-IsTidy : (flt mask : List ℕ) → IsTidy (start_filter adapter pid demux num flt mask m)
  unfolding start_filter
  start_filter-IsTidy flt mask =
      let fs = (get_or_new (find (adapter, pid) m)).filters in
      insert-IsTidy adapter pid _ m
        (record {
          used = upsert-ne-nil demux num flt mask fs;
          distinct = upsert-AreDistinct demux num flt mask fs get_or_new-AreDistinct;
        })
        tidy

  without_filter-IsTidy :
      (pf : PidFilters) (r : Option (List DmxFilter))
      → find (adapter, pid) m ≡ some pf
      → remove_filter demux num pf.filters ≡ r
      → IsTidy (without_filter adapter pid pf r m)
  unfolding without_filter
  without_filter-IsTidy pf none e r = tidy
  without_filter-IsTidy pf (some []) e r = erase-IsTidy adapter pid m tidy
  without_filter-IsTidy pf (some (f ∷ fs)) e r =
      insert-IsTidy adapter pid (record pf { filters = f ∷ fs }) m
        (record {
          used = λ x. cc;
          distinct =
              (remove_filter-AreDistinct demux num pf.filters (f ∷ fs)
                ((tidy adapter pid pf e).distinct) r).0;
        })
        tidy

  stop_filter-IsTidy : IsTidy (stop_filter adapter pid demux num m)
  unfolding stop_filter
  stop_filter-IsTidy = elim (Option-cases (find (adapter, pid) m)) [
    | inl e ↦ rw (e, stop_filter) tidy
    | inr (pf, e) ↦
        rw (e, stop_filter) (without_filter-IsTidy pf (remove_filter demux num pf.filters) e refl)
  ]

-- `SetFilter` keeps the table tidy, whatever it is called with.
pub set_filter-IsTidy :
    (adapter pid start demux num : ℕ) (flt mask : Option (List ℕ)) (m : PidMap)
    → IsTidy m
    → IsTidy (set_filter adapter pid start demux num flt mask m).0
unfolding set_filter
set_filter-IsTidy adapter pid start demux num flt mask m h =
    elim (Bool-cases (ltb pid max_csa_pid)) [ inl e ↦ rw e (changed flt mask) | inr e ↦ rw e h ]
  where
    stopped : (b : Bool) → IsTidy (if b then stop_filter adapter pid demux num m else m)
    stopped true = stop_filter-IsTidy adapter pid demux num m h
    stopped false = h

    started :
        (b : Bool) (f k : List ℕ)
        → IsTidy (
            if b
            then start_filter adapter pid demux num f k m
            else if start == 0
            then stop_filter adapter pid demux num m
            else m)
    started true f k = start_filter-IsTidy adapter pid demux num m h f k
    started false f k = stopped (start == 0)

    changed : (f k : Option (List ℕ)) → IsTidy (change_filter adapter pid start demux num f k m)
    changed none k = stopped (start == 0)
    changed (some f) none = stopped (start == 0)
    changed (some f) (some k) = started (start == 1) f k
