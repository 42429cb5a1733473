-- ===== src/Slot/Fill.antt =====
-- SCCAMSlot.cpp: `DeCSAFillControl`, which holds packets back until the input buffer has as many
-- bytes as the low-water mark says.
pub mod Bounds
pub mod Progress
use vdr_plugin_dvbapi.Prelude.{
  ℕ, ◌+◌, ◌-◌, ◌*◌, min, max, Bool, true, false, not, ◌&&◌, ◌||◌, Option, none, some, List, [], ◌∷◌,
  ltb, leb, ◌==◌, if◌then◌else◌,
}

pub data Phase : Type 0 where
  ready sleep wrap : Phase

-- The constants of the constructor.
pub record Limits : Type 0 where
  pub max_water_mark : ℕ
  pub timeout : ℕ
  pub data_interval : ℕ

abbrev pub sleep_interval : ℕ
sleep_interval = 20

abbrev pub min_water_mark : ℕ
min_water_mark = 2 * 188

unfoldable pub limits : ℕ → ℕ → ℕ → Limits
limits max_water_mark timeout data_interval = record {
  max_water_mark = max_water_mark;
  timeout = timeout;
  data_interval = if ltb timeout data_interval then timeout else data_interval;
}

-- The fields that change. `last_data` is an address, and a tap of -1 is `none`.
pub record Fill : Type 0 where
  pub phase : Phase
  pub low_water_mark : ℕ
  pub last_count : ℕ
  pub last_data : ℕ
  pub time_slept : ℕ
  pub tap1 : Option ℕ
  pub tap2 : Option ℕ

-- `Filter`: its result and the fields after it.
pub filtered : ℕ → Option ℕ → Option ℕ → ℕ
filtered input (some tap1) (some tap2) = min (max (min input tap1) tap2) (max input tap1)
filtered input _ _ = input

module _ (l : Limits) where
  pub reset_fill : Fill → Fill
  reset_fill s = record s {
    phase = ready;
    low_water_mark = l.max_water_mark;
    tap1 = none;
    tap2 = none;
  }

  -- The new mark for the bytes that arrived during the timeout. A negative number of bytes is below
  -- the minimum, as none is.
  pub clamped : ℕ → ℕ
  clamped arrived =
      let low = if ltb l.max_water_mark arrived then l.max_water_mark else arrived in
      if ltb low min_water_mark then min_water_mark else low

  pub new_mark : ℕ → Fill → Fill
  unfolding filtered clamped
  new_mark count s =
      let input = clamped (count - s.last_count) in
      record s {
        phase = ready;
        low_water_mark = filtered input s.tap1 s.tap2;
        tap1 = some input;
        tap2 = s.tap1;
      }

  -- `CanProcess`, by its phase: whether the packets may be processed, and the fields after it. All
  -- results of false but that of `wrap` come after a sleep.
  pub when_ready : ℕ → ℕ → Fill → Bool × Fill
  when_ready address count s =
      if ltb count s.low_water_mark
      then (
        false,
        record s { phase = sleep; last_count = count; last_data = address; time_slept = 0 },
      )
      else (true, s)

  pub when_asleep : ℕ → ℕ → Fill → Bool × Fill
  unfolding new_mark
  when_asleep address count s =
      let slept = s.time_slept + sleep_interval in
      let awake = record s { time_slept = slept } in
      let stuck = leb l.data_interval slept && (count == s.last_count && address == s.last_data) in
      if stuck
      then (true, record awake { phase = wrap })
      else if leb l.timeout slept || ltb (s.last_count + l.max_water_mark) count
      then (false, new_mark count awake)
      else (false, awake)

  pub when_wrapped : ℕ → ℕ → Fill → Bool × Fill
  when_wrapped address count s =
      if address + count == s.last_data + s.last_count
      then (true, record s { last_data = address; last_count = count })
      else (false, record s { phase = ready })

  pub in_phase : Phase → ℕ → ℕ → Fill → Bool × Fill
  unfolding when_ready when_asleep when_wrapped
  in_phase ready address count s = when_ready address count s
  in_phase sleep address count s = when_asleep address count s
  in_phase wrap address count s = when_wrapped address count s

  pub can_process : ℕ → ℕ → Fill → Bool × Fill
  unfolding in_phase
  can_process address count s = in_phase s.phase address count s
