-- ===== src/Descrambler/Pids.antt =====
-- `SetCaPid` and the offset of the payload.
use vdr_plugin_dvbapi.Prelude.{
  ℕ, ◌≤◌, ◌<◌, ◌≡◌, ◌⊎◌, true, ◌&&◌, Option, none, some, List, ◌==◌, if◌then◌else◌, find-insert,
  find-erase, same, nat_ord, arith,
}
use vdr_plugin_dvbapi.Filter.{max_csa_pid}
use vdr_plugin_dvbapi.Descrambler.{
  AdapterPidMap, map_pid, search_pid, set_ca_pid, is_index, max_adapter, max_csa_pid,
  ts_packet_get_payload_offset,
}

search_pid-map_pid :
    (pid q : ℕ) (index : Option ℕ) (m : AdapterPidMap)
    → search_pid q (map_pid pid index m) ≡ (if same q pid then index else search_pid q m)
unfolding search_pid map_pid
search_pid-map_pid pid q none m = find-erase pid q m
search_pid-map_pid pid q (some index) m = find-insert pid q index m

-- For parameters in their ranges, SetCaPid gives the pid of the adapter its index, or removes it for
-- a negative index, and changes no other pid and no other adapter.
pub search_pid-set_ca_pid :
    (adapter pid a q : ℕ) (index : Option ℕ) (maps : ℕ → AdapterPidMap)
    → adapter < max_adapter
    → pid < max_csa_pid
    → is_index index ≡ true
    → search_pid q (set_ca_pid adapter pid index maps a)
      ≡ (if a == adapter && same q pid then index else search_pid q (maps a))
unfolding set_ca_pid
search_pid-set_ca_pid adapter pid a q index maps h1 h2 h3 =
    ground (arith, search_pid-map_pid pid q index (maps a))

-- The offset that ts_packet_get_payload_offset returns is 0, or stands behind the header and within
-- the packet.
payload_offset_bounds :
    (packet : List ℕ)
    → (ts_packet_get_payload_offset packet ≡ 0)
      ⊎ ((4 ≤ ts_packet_get_payload_offset packet) × (ts_packet_get_payload_offset packet ≤ 188))
unfolding ts_packet_get_payload_offset
payload_offset_bounds packet = ground arith
