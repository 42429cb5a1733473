-- ===== src/Filter/Control.antt =====
-- Filter.cpp: `SetFilter`, `StopAllFilters` and `GetECM`, which change or read the table of filters.
pub mod Tidy
pub mod Table
pub mod Match
use vdr_plugin_dvbapi.Prelude.{
  ℕ, bit_and, Bool, true, false, ◌&&◌, Option, none, some, List, [], ◌∷◌, ltb, ◌==◌, if◌then◌else◌,
  take, find, insert, erase, pair_ord,
}
use vdr_plugin_dvbapi.Filter.{
  dmx_filter_size, max_csa_pid, byte, DmxFilter, PidFilters, PidMap, no_filters,
}

abbrev pub is_filter : ℕ → ℕ → DmxFilter → Bool
is_filter demux num f = f.demux_id == demux && f.filter_num == num

-- `it->filter[i] &= it->mask[i]`
pub and_bytes : List ℕ → List ℕ → List ℕ
and_bytes [] ms = []
and_bytes (b ∷ bs) [] = []
and_bytes (b ∷ bs) (m ∷ ms) = bit_and b m ∷ and_bytes bs ms

-- The filter that has the number is updated, or a new one is added at the end.
module _ (demux num : ℕ) (flt mask : List ℕ) where
  pub store : DmxFilter → DmxFilter
  store f = record f {
    filter = and_bytes (take dmx_filter_size flt) (take dmx_filter_size mask);
    mask = take dmx_filter_size mask;
  }

  abbrev pub new_filter : DmxFilter
  new_filter = record {
    demux_id = demux;
    filter_num = num;
    filter = [];
    mask = [];
    ecm_even = 0;
    ecm_odd = 0;
  }

  pub upsert : List DmxFilter → List DmxFilter
  upsert [] = store new_filter ∷ []
  upsert (f ∷ fs) = if is_filter demux num f then store f ∷ fs else f ∷ upsert fs

-- The list without the first filter that has the number, if there is one.
pub remove_filter : ℕ → ℕ → List DmxFilter → Option (List DmxFilter)
remove_filter demux num [] = none
remove_filter demux num (f ∷ fs) =
    let rest = elim (remove_filter demux num fs) as (λ _. Option (List DmxFilter)) [
      | none ↦ none
      | some gs ↦ some (f ∷ gs)
    ] in
    if is_filter demux num f then some fs else rest

abbrev pub get_or_new : Option PidFilters → PidFilters
get_or_new none = no_filters
get_or_new (some pf) = pf

-- `start == 1` with both pointers given.
pub start_filter : ℕ → ℕ → ℕ → ℕ → List ℕ → List ℕ → PidMap → PidMap
start_filter adapter pid demux num flt mask pidmap =
    let pf = get_or_new (find (adapter, pid) pidmap) in
    insert (adapter, pid) (record pf { filters = upsert demux num flt mask pf.filters }) pidmap

-- `start == 0`: nothing changes where the filter is not there, and with its last filter a pid
-- leaves the table.
pub without_filter : ℕ → ℕ → PidFilters → Option (List DmxFilter) → PidMap → PidMap
without_filter adapter pid pf none pidmap = pidmap
without_filter adapter pid pf (some []) pidmap = erase (adapter, pid) pidmap
without_filter adapter pid pf (some (f ∷ fs)) pidmap =
    insert (adapter, pid) (record pf { filters = f ∷ fs }) pidmap

pub stop_filter : ℕ → ℕ → ℕ → ℕ → PidMap → PidMap
unfolding without_filter
stop_filter adapter pid demux num pidmap = elim (find (adapter, pid) pidmap) [
  | none ↦ pidmap
  | some pf ↦ without_filter adapter pid pf (remove_filter demux num pf.filters) pidmap
]

abbrev pub change_filter : ℕ → ℕ → ℕ → ℕ → ℕ → Option (List ℕ) → Option (List ℕ) → PidMap → PidMap
change_filter adapter pid start demux num (some flt) (some mask) pidmap =
    if start == 1
    then start_filter adapter pid demux num flt mask pidmap
    else if start == 0
    then stop_filter adapter pid demux num pidmap
    else pidmap
change_filter adapter pid start demux num _ _ pidmap =
    if start == 0 then stop_filter adapter pid demux num pidmap else pidmap

-- `SetFilter`, with `decsa` set. Beside the table it returns the call of
-- `DeCSA::SetDVBAPIPid(adapter, demux, pid)`, which is made for filter number 1.
pub set_filter :
    ℕ → ℕ → ℕ → ℕ → ℕ → Option (List ℕ) → Option (List ℕ) → PidMap → PidMap × Option (ℕ × ℕ × ℕ)
set_filter adapter pid start demux num flt mask pidmap =
    if ltb pid max_csa_pid
    then (
      change_filter adapter pid start demux num flt mask pidmap,
      if num == 1 then some (adapter, demux, pid) else none,
    )
    else (pidmap, none)

unfoldable pub stop_all_filters : PidMap → PidMap
stop_all_filters pidmap = []

-- `GetECM` for `ca_descr->index` and `ca_descr->parity`: the first ECM filter of the demux decides.
-- The CAT, SDT and EMM filters of the demux are passed over.
abbrev pub is_ecm_filter : ℕ → DmxFilter → Bool
is_ecm_filter index f = index == f.demux_id && bit_and (byte f.filter 0) 0xFE == 0x80

pub ecm_of_filters : ℕ → ℕ → List DmxFilter → Option ℕ
ecm_of_filters index parity [] = none
ecm_of_filters index parity (f ∷ fs) =
    let rest = ecm_of_filters index parity fs in
    if is_ecm_filter index f then some (if parity == 0 then f.ecm_even else f.ecm_odd) else rest

pub get_ecm : ℕ → ℕ → ℕ → PidMap → ℕ
get_ecm adapter index parity [] = 0
get_ecm adapter index parity (((a, pid), pf) ∷ rest) =
    let later = get_ecm adapter index parity rest in
    if a == adapter && ltb 0 pid
    then elim (ecm_of_filters index parity pf.filters) [ none ↦ later | some ecm ↦ ecm ]
    else later
