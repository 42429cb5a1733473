-- ===== src/Descrambler.antt =====
-- DeCSA.cpp: which key a pid is descrambled with, and where the payload of a packet starts. The keys
-- are those of the FFdecsa library; a key store is a parameter.
mod Tests
pub mod Pids
pub mod Parity
pub mod Stop
pub mod Keys
pub mod Batch
pub mod FastEcm
pub mod Cancel
pub mod Decsa
use vdr_plugin_dvbapi.Prelude.{
  ℕ, zero, suc, ◌+◌, ◌/◌, Bool, true, false, not, ◌&&◌, ◌||◌, Option, none, some, List, [], ◌∷◌,
  ltb, ◌==◌, bit_and, get_or, length, if◌then◌else◌, find, insert, erase, nat_ord,
}
use vdr_plugin_dvbapi.Filter.{max_csa_pid}

abbrev pub max_adapter : ℕ
max_adapter = 64

abbrev pub max_csa_idx : ℕ
max_csa_idx = 32

-- `AdapterPidMap`: the key index of a pid.
abbrev pub AdapterPidMap : Type 0
AdapterPidMap = List (ℕ × ℕ)

-- `DeCSAAdapter::SetCaPid`; an index below 0 is `none`.
pub map_pid : ℕ → Option ℕ → AdapterPidMap → AdapterPidMap
map_pid pid none m = erase pid m
map_pid pid (some index) m = insert pid index m

-- `SearchPIDinMAP`; -1 is `none`.
pub search_pid : ℕ → AdapterPidMap → Option ℕ
search_pid pid m = find pid m

abbrev pub is_index : Option ℕ → Bool
is_index none = true
is_index (some index) = ltb index max_csa_idx

-- `DeCSA::SetCaPid`, over the maps of all adapters.
pub set_ca_pid : ℕ → ℕ → Option ℕ → (ℕ → AdapterPidMap) → ℕ → AdapterPidMap
unfolding map_pid
set_ca_pid adapter pid index maps a =
    if is_index index && ltb pid max_csa_pid && (ltb adapter max_adapter && a == adapter)
    then map_pid pid index (maps a)
    else maps a

-- `ts_packet_get_payload_offset`; 0 for a packet that is not valid.
pub ts_packet_get_payload_offset : List ℕ → ℕ
ts_packet_get_payload_offset packet =
    let adapt_field = not (bit_and (get_or packet 3 0) 0x20 == 0) in
    let payload_field = not (bit_and (get_or packet 3 0) 0x10 == 0) in
    let adapt_len = get_or packet 4 0 in
    if not (get_or packet 0 0 == 0x47)
    then 0
    else if not adapt_field && not payload_field
    then 0
    else if adapt_field
    then if payload_field && ltb 182 adapt_len
        || (not payload_field && ltb 183 adapt_len || ltb 188 (adapt_len + 4))
      then 0
      else 4 + 1 + adapt_len
    else 4

abbrev pub same_sid : Option ℕ → Option ℕ → Bool
same_sid (some a) (some b) = a == b
same_sid _ _ = false

-- `DeCSAAdapter::Init_Parity`, over a key store `K` with the service id of a key (`Get_FastECM_SID`)
-- and the start of its parity (`Init_Parity2`). A number below 0 is `none`.
module _ {K : Type 0} (sid_of : K → ℕ → Option ℕ) (init : ℕ → K → K) (sid slot : Option ℕ)
    (bdelete : Bool) where
  abbrev pub is_sid : K → ℕ → Bool
  is_sid keys idx = same_sid (sid_of keys idx) sid

  abbrev pub is_slot : ℕ → Bool
  is_slot idx = elim slot [ none ↦ false | some s ↦ s == idx ]

  -- One run of the inner loop: the keys after it, and the pid that it deletes, where it breaks off.
  pub pass : K → AdapterPidMap → K × Option ℕ
  pass keys [] = (keys, none)
  pass keys ((pid, idx) ∷ m) =
      let started = init idx keys in
      let on_keys : K = if is_sid keys idx then started else keys in
      let next = pass on_keys m in
      if is_sid keys idx && bdelete || (not (is_sid keys idx) && is_slot idx)
      then (started, some pid)
      else next

  -- The outer loop, with `none` where the rounds run out.
  pub passes : ℕ → K → AdapterPidMap → Option (K × AdapterPidMap)
  unfolding pass
  passes zero keys m = none
  passes (suc fuel) keys m =
      let r = pass keys m in
      elim r.1 [ none ↦ some (r.0, m) | some pid ↦ passes fuel r.0 (erase pid m) ]

  pub init_parity : K → AdapterPidMap → Option (K × AdapterPidMap)
  unfolding passes
  init_parity keys m = passes (suc (length m)) keys m
