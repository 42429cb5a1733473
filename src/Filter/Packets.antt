-- ===== src/Filter/Packets.antt =====
-- Filter.cpp: `cDvbapiFilter::Analyze`, which takes the sections out of a TS packet. A packet is a
-- list of `ts_size` bytes; the pointer `p` and the count `n` of bytes left are the list of these.
pub mod Empty
pub mod Walk
pub mod Header
pub mod Stream
pub mod Invariant
use vdr_plugin_dvbapi.Prelude.{
  ℕ, zero, suc, ◌+◌, ◌-◌, ◌*◌, ◌/◌, bit_and, Bool, true, false, not, ◌&&◌, ◌||◌, Option, none, some,
  List, [], ◌∷◌, ltb, leb, ◌==◌, if◌then◌else◌, length, take, drop, find, insert, pair_ord,
}
use vdr_plugin_dvbapi.Filter.{
  ts_size, max_csa_pid, byte, PidFilters, PidMap, Sent, total_len, Step, ◌then_do◌, clear, deliver,
  collect,
}

-- The adaptation field control, and the offset of the payload.
unfoldable pub has_payload : List ℕ → Bool
has_payload buf = not (bit_and (bit_and (byte buf 3 / 16) 0x03) 0x01 == 0)

unfoldable pub payload_offset : List ℕ → ℕ
payload_offset buf =
    if bit_and (bit_and (byte buf 3 / 16) 0x03) 0x02 == 0 then 4 else 5 + byte buf 4

unfoldable pub is_continuous : Option ℕ → ℕ → Bool
is_continuous none cc = false
is_continuous (some last) cc = cc == bit_and (last + 1) 0x0F

-- All for one adapter and pid, over `CAPMT::GetCAIDFromPid` at these.
module _ (caid : ℕ) where
  -- The loop over the sections of a packet. `p` holds the `n` bytes that are left; each round takes
  -- three of them at least.
  pub walk : ℕ → List ℕ → Step
  walk zero p pf = (pf, [])
  walk (suc fuel) [] pf = (pf, [])
  walk (suc fuel) (b ∷ p) pf =
      let buf = b ∷ p in
      let seclen = total_len buf in
      let next = (deliver caid (take seclen buf) then_do walk fuel (drop seclen buf)) pf in
      if b == 0xFF
      then (pf, [])
      else if ltb (length buf) 3 || ltb (length buf) seclen
      then collect caid buf pf
      else next

  pub walk_payload : List ℕ → Step
  unfolding walk
  walk_payload p = walk (length p) p

  -- The new sections of a packet, behind the pointer field: `pointer` bytes complete the section of
  -- the previous packet.
  pub start_sections : Bool → ℕ → List ℕ → Step
  start_sections continuous pointer p pf =
      let open_section = continuous && not (length pf.section == 0) in
      let previous : Step = if open_section then collect caid (take pointer p) else λ q. (q, []) in
      let next : Step = λ q. walk_payload (drop pointer p) (clear q) in
      if ltb (length p) pointer then (clear pf, []) else (previous then_do next) pf

  pub continue_section : Bool → List ℕ → Step
  continue_section continuous p pf =
      if continuous && not (length pf.section == 0) then collect caid p pf else (clear pf, [])

  pub payload : Bool → Bool → List ℕ → Step
  unfolding start_sections continue_section
  payload pusi continuous [] pf = (pf, [])
  payload pusi continuous (b ∷ p) pf =
      if pusi then start_sections continuous b p pf else continue_section continuous (b ∷ p) pf

  -- `Analyze` behind the lookup of the pid.
  pub analyze_pid : List ℕ → Step
  unfolding payload has_payload payload_offset is_continuous
  analyze_pid buf pf =
      let offset = payload_offset buf in
      let cc = bit_and (byte buf 3) 0x0F in
      let continuous = is_continuous pf.lastcc cc in
      let pusi = not (bit_and (byte buf 1) 0x40 == 0) in
      let body = take (ts_size - offset) (drop offset buf) in
      if has_payload buf && ltb offset ts_size
      then payload pusi continuous body (record pf { lastcc = some cc })
      else (pf, [])

-- The pid of a packet: `((data[1] << 8) + data[2]) & MAX_CSA_PID`.
unfoldable pub packet_pid : List ℕ → ℕ
packet_pid buf = bit_and (byte buf 1 * 256 + byte buf 2) max_csa_pid

-- `Analyze`, over `GetCAIDFromPid` of the adapter and the pid.
pub analyze : (ℕ → ℕ → ℕ) → ℕ → List ℕ → PidMap → PidMap × List Sent
unfolding packet_pid
analyze caid_of_pid adapter buf pidmap =
    let pid = packet_pid buf in
    if leb max_csa_pid pid || pid == 0 then (pidmap, []) else elim (find (adapter, pid) pidmap) [
      | none ↦ (pidmap, [])
      | some pf ↦
          let (pf', sent) = analyze_pid (caid_of_pid adapter pid) buf pf in
          (insert (adapter, pid) pf' pidmap, sent)
    ]
