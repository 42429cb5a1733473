-- ===== src/Filter/Tests.antt =====
-- Runs of the section filter on small inputs, and the theorems about it at concrete packets.
use mathlib.Core.Option.{some-injective}
use vdr_plugin_dvbapi.Prelude.{
  ℕ, ◌≡◌, refl, subst, Bool-cases, true, false, some, none, List, [], ◌∷◌, ◌++◌, arith, replicate,
  find, pair_ord, inl, inr, same,
}
use vdr_plugin_dvbapi.Filter.{
  DmxFilter, PidFilters, PidMap, clear, deliver, deliver_all, matches, matches_from,
}
use vdr_plugin_dvbapi.Filter.Assembly.{IsOpen, feed, delivered, feed-delivered}
use vdr_plugin_dvbapi.Filter.Packets.{
  analyze_pid, analyze, has_payload, payload_offset, is_continuous,
}
use vdr_plugin_dvbapi.Filter.Packets.Stream.{
  analyze_each, section_packets, ended, counted, analyze_each-section_packets,
}
use vdr_plugin_dvbapi.Filter.Packets.Invariant.{AllOpen, analyze-AllOpen, analyze_pid_lost}
use vdr_plugin_dvbapi.Filter.Control.{set_filter}
use vdr_plugin_dvbapi.Filter.Control.Tidy.{IsTidy, IsTidyEntry, has_filter, set_filter-IsTidy}
use vdr_plugin_dvbapi.Filter.Control.Table.{has, has-set_filter}

-- A filter for ECMs with an even key: table id 0x80, nothing else is looked at.
abbrev ecm_bytes : List ℕ
ecm_bytes = 0x80 ∷ replicate 15 0

abbrev ecm_mask : List ℕ
ecm_mask = 0xFF ∷ replicate 15 0

abbrev ecm_filter : DmxFilter
ecm_filter = record {
  demux_id = 2;
  filter_num = 1;
  filter = ecm_bytes;
  mask = ecm_mask;
  ecm_even = 0;
  ecm_odd = 0;
}

abbrev watched : PidFilters
watched = record { filters = ecm_filter ∷ []; section = []; section_len = 0; lastcc = none }

abbrev short_section : List ℕ
short_section = 0x80 ∷ 0x70 ∷ 0x03 ∷ 1 ∷ 2 ∷ 3 ∷ []

abbrev long_section : List ℕ
long_section = 0x80 ∷ 0x70 ∷ 197 ∷ replicate 197 7

abbrev long_first : List ℕ
long_first = 0x80 ∷ 0x70 ∷ 197 ∷ replicate 178 7

abbrev long_last : List ℕ
long_last = replicate 19 7 ++ replicate 165 0xFF

delivers_short :
    (deliver 0 short_section watched).1
    ≡ record { demux_id = 2; filter_num = 1; body = short_section } ∷ []
unfolding deliver deliver_all matches matches_from
delivers_short = refl

feed-delivered_example :
    feed 0 ((0x80 ∷ []) ∷ (0x70 ∷ 0x03 ∷ []) ∷ (1 ∷ 2 ∷ 3 ∷ 0xFF ∷ []) ∷ []) watched
    ≡ delivered 0 watched short_section
feed-delivered_example =
    feed-delivered 0 watched short_section (0xFF ∷ []) (1 ∷ 2 ∷ 3 ∷ 0xFF ∷ [])
      ((0x80 ∷ []) ∷ (0x70 ∷ 0x03 ∷ []) ∷ []) (omega arith) refl (omega arith)

-- A packet without the start flag, at a gap in the counters.
abbrev lost_packet : List ℕ
lost_packet = 0x47 ∷ 0x01 ∷ 0x23 ∷ 0x15 ∷ replicate 184 9

abbrev half_done : PidFilters
half_done = record watched { section = 0x80 ∷ 0x70 ∷ []; lastcc = some 3 }

-- The first packet completes the open section `half_done`, and starts a long one.
analyze_each-section_packets_example :
    analyze_each 0 (section_packets 0x123 4 (1 ∷ 9 ∷ []) long_first (long_last ∷ [])) half_done ≡ (
      (delivered 0 (counted 5 (ended 0 4 (1 ∷ 9 ∷ []) half_done).0) long_section).0,
      (ended 0 4 (1 ∷ 9 ∷ []) half_done).1
          ++ (delivered 0 (counted 5 (ended 0 4 (1 ∷ 9 ∷ []) half_done).0) long_section).1,
    )
analyze_each-section_packets_example =
    analyze_each-section_packets 0 0x123 (omega arith) half_done long_section (replicate 165 0xFF)
      (omega arith) 4 (1 ∷ 9 ∷ []) long_first long_last [] refl (omega arith) (refl, tt) refl
      (omega arith)

analyze_pid_lost_example :
    analyze_pid 0 lost_packet half_done ≡ analyze_pid 0 lost_packet (clear half_done)
unfolding has_payload payload_offset is_continuous
analyze_pid_lost_example = analyze_pid_lost 0 lost_packet half_done refl refl (omega arith) refl

abbrev one_pid : PidMap
one_pid = ((0, 0x123), half_done) ∷ []

one_pid-AllOpen : AllOpen one_pid
unfolding find
one_pid-AllOpen adapter pid pf e = elim (Bool-cases (same {K = ℕ × ℕ} (adapter, pid) (0, 0x123))) [
  | inl hit ↦
      subst IsOpen {x = half_done} {y = pf} (some-injective half_done pf (rw hit at e))
        (inl (refl, omega arith))
  | inr miss ↦ cc (rw miss at e)
]

analyze-AllOpen_example : AllOpen (analyze (λ _ _. 0) 0 lost_packet one_pid).0
analyze-AllOpen_example = analyze-AllOpen (λ _ _. 0) 0 lost_packet one_pid one_pid-AllOpen

one_pid-IsTidy : IsTidy one_pid
unfolding find
one_pid-IsTidy adapter pid pf e = elim (Bool-cases (same {K = ℕ × ℕ} (adapter, pid) (0, 0x123))) [
  | inl hit ↦
      subst IsTidyEntry (some-injective half_done pf (rw hit at e))
        (record { used = λ x. cc; distinct = (unfold has_filter in refl, tt) })
  | inr miss ↦ cc (rw miss at e)
]

set_filter-IsTidy_example : IsTidy (set_filter 0 0x123 0 2 1 none none one_pid).0
set_filter-IsTidy_example = set_filter-IsTidy 0 0x123 0 2 1 none none one_pid one_pid-IsTidy

has-set_filter_example :
    (has (set_filter 0 0x123 1 2 3 (some ecm_bytes) (some ecm_mask) one_pid).0 (0, 0x123) 2 3
      ≡ true)
    × (has (set_filter 0 0x123 0 2 3 none none one_pid).0 (0, 0x123) 2 3 ≡ false)
has-set_filter_example =
    has-set_filter 0 0x123 2 3 ecm_bytes ecm_mask one_pid (0, 0x123) 2 3 one_pid-IsTidy
      (omega arith)
