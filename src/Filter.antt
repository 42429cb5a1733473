-- ===== src/Filter.antt =====
-- Filter.cpp and Filter.h: the section filters that OSCam sets, and the assembly of sections from
-- TS packets. What the class sends through `SocketHandler::SendFilterData` is returned as a list,
-- in the order of the calls. `mutex` serialises the methods, so each is one step on the map.
mod Tests
pub mod Packets
pub mod Control
pub mod Assembly
use vdr_plugin_dvbapi.Prelude.{
  ℕ, zero, suc, ◌+◌, ◌-◌, ◌*◌, ◌/◌, min, bit_and, bit_or, Bool, true, false, not, ◌&&◌, ◌||◌,
  Option, none, some, List, [], ◌∷◌, ◌++◌, ltb, leb, ◌==◌, if◌then◌else◌, length, get_or, take,
  drop, find, ap, ap₂, ◌∙◌, ◌≡◌,
}

-- `DMX_FILTER_SIZE` of the kernel's dmx.h, `TS_SIZE` of VDR, and `MAX_CSA_PID` of DeCSA.h.
abbrev pub dmx_filter_size : ℕ
dmx_filter_size = 16

abbrev pub ts_size : ℕ
ts_size = 188

abbrev pub max_csa_pid : ℕ
max_csa_pid = 0x1FFF

-- A byte of a buffer; one past its end counts as 0, as `Deliver` has it.
abbrev pub byte : List ℕ → ℕ → ℕ
byte buf i = get_or buf i 0

-- `struct dmxfilter`.
pub record DmxFilter : Type 0 where
  pub demux_id : ℕ
  pub filter_num : ℕ
  pub filter : List ℕ
  pub mask : List ℕ
  pub ecm_even : ℕ
  pub ecm_odd : ℕ

-- `struct pidfilters`. A `lastcc` of -1 is `none`.
pub record PidFilters : Type 0 where
  pub filters : List DmxFilter
  pub section : List ℕ
  pub section_len : ℕ
  pub lastcc : Option ℕ

abbrev pub no_filters : PidFilters
no_filters = record { filters = []; section = []; section_len = 0; lastcc = none }

-- `pidmap`, by adapter and pid.
abbrev pub PidMap : Type 0
PidMap = List ((ℕ × ℕ) × PidFilters)

-- A call of `SendFilterData`.
pub record Sent : Type 0 where
  pub demux_id : ℕ
  pub filter_num : ℕ
  pub body : List ℕ

-- `SetECM`, with the CAID that `GetCAIDFromPid` finds for the pid.
pub is_videoguard : ℕ → List ℕ → Bool
is_videoguard caid buf =
    (caid == 0 || caid / 256 == 0x09) && (not (byte buf 4 == 0) && byte buf 2 == byte buf 4 + 4)

pub set_ecm : ℕ → List ℕ → DmxFilter → DmxFilter
unfolding is_videoguard
set_ecm caid buf f =
    let ecm = if is_videoguard caid buf then bit_and (byte buf (length buf - 1)) 0x0F else 0 in
    if ltb 4 (length buf)
    then if byte buf 0 == 0x80
      then record f { ecm_even = ecm }
      else if byte buf 0 == 0x81
      then record f { ecm_odd = ecm }
      else f
    else f

-- The loop of `Deliver` over a filter's bytes, from the `i`-th, with `n` left: the first is
-- compared with the table id, the others with the bytes behind the section length.
abbrev pub filter_pos : ℕ → ℕ
filter_pos i = if i == 0 then 0 else i + 2

pub matches_from : List ℕ → DmxFilter → ℕ → ℕ → Bool
matches_from buf f i zero = true
matches_from buf f i (suc n) =
    let rest = matches_from buf f (i + 1) n in
    if bit_and (byte buf (filter_pos i)) (byte f.mask i) == byte f.filter i then rest else false

pub matches : List ℕ → DmxFilter → Bool
unfolding matches_from
matches buf f = matches_from buf f 0 dmx_filter_size

-- The loop of `Deliver` over the filters.
pub deliver_all : ℕ → List ℕ → List DmxFilter → List DmxFilter × List Sent
deliver_all caid buf [] = ([], [])
deliver_all caid buf (f ∷ fs) =
    let (fs', sent) = deliver_all caid buf fs in
    if matches buf f
    then (
      set_ecm caid buf f ∷ fs',
      record { demux_id = f.demux_id; filter_num = f.filter_num; body = buf } ∷ sent,
    )
    else (f ∷ fs', sent)

-- `3 + (((s[1] & 0x0F) << 8) | s[2])`
abbrev pub total_len : List ℕ → ℕ
total_len s = 3 + bit_or (bit_and (byte s 1) 0x0F * 256) (byte s 2)

-- One step on the filters of a pid, with what it sends.
abbrev pub Step : Type 0
Step = PidFilters → PidFilters × List Sent

infixl 5 ◌then_do◌
abbrev pub ◌then_do◌ : Step → Step → Step
◌then_do◌ a b pf = let (pf₁, sent₁) = a pf in let (pf₂, sent₂) = b pf₁ in (pf₂, sent₁ ++ sent₂)

pub then_do_lem :
    (a b : Step) {pf q r : PidFilters} {xs ys : List Sent}
    → a pf ≡ (q, xs)
    → b q ≡ (r, ys)
    → (a then_do b) pf ≡ (r, xs ++ ys)
then_do_lem a b {pf} {q} {r} {xs} {ys} e f =
    ap₂ (λ (o : PidFilters) (zs : List Sent). (o, zs)) (ap (λ p. (b p.0).0) e ∙ ap (λ p. p.0) f)
      (ap₂ ◌++◌ (ap (λ p. p.1) e) (ap (λ p. (b p.0).1) e ∙ ap (λ p. p.1) f))

abbrev pub clear : PidFilters → PidFilters
clear pf = record pf { section = []; section_len = 0 }

-- `Collect` has three parts: the bytes that are taken (`gather`), the length once the header is
-- there (`read_header`), and the delivery of a section that is complete (`finish`).
pub gather : List ℕ → PidFilters → PidFilters
gather buf pf =
    let wanted =
      if pf.section_len == 0
      then length buf
      else min (length buf) (pf.section_len - length pf.section) in
    record pf { section = pf.section ++ take wanted buf }

pub read_header : PidFilters → PidFilters
read_header pf =
    let total = total_len pf.section in
    if pf.section_len == 0 && leb 3 (length pf.section)
    then record pf {
      section_len = total;
      section = if ltb total (length pf.section) then take total pf.section else pf.section;
    }
    else pf

-- `Deliver` and `Collect` for one adapter and pid, over `CAPMT::GetCAIDFromPid` at these.
module _ (caid : ℕ) where
  pub deliver : List ℕ → Step
  deliver buf pf =
      let (fs, sent) = deliver_all caid buf pf.filters in (record pf { filters = fs }, sent)

  pub finish : Step
  finish pf =
      if not (pf.section_len == 0) && length pf.section == pf.section_len
      then (let (pf', sent) = deliver pf.section pf in (clear pf', sent))
      else (pf, [])

  pub collect : List ℕ → Step
  collect buf pf = finish (read_header (gather buf pf))
