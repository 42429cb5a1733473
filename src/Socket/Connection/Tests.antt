-- ===== src/Socket/Connection/Tests.antt =====
-- A connection that is made, lost and made again, and the theorems about it there.
use vdr_plugin_dvbapi.Prelude.{ℕ, ◌≡◌, refl, true, false, none, some, List, [], ◌∷◌}
use vdr_plugin_dvbapi.Capmt.{
  PmtObj, no_ecm_info, send_all, process_sid_request, after_removal, remove_pmt, new_pmt,
  program_info_length,
}
use vdr_plugin_dvbapi.Socket.Messages.{Codes}
use vdr_plugin_dvbapi.Socket.Connection.{
  State, start, Round, quiet, poll_error, action_round, reconnect, close_connection, connects,
  reached, unreachable, client_info_message, receive_round,
}
use vdr_plugin_dvbapi.Socket.Connection.Filters.{Reached, at_start, then_step, requested, round}
use vdr_plugin_dvbapi.Socket.Connection.Closing
use vdr_plugin_dvbapi.Socket.Connection.Closing.{close_socket}
use vdr_plugin_dvbapi.Socket.Connection.Recovery.{action_round_recovers}

abbrev codes : Codes
codes = record {
  ca_set_pid = 0x40086F87;
  ca_set_descr = 0x40106F86;
  dmx_set_filter = 0x403C6F2B;
  dmx_stop = 0x6F2A;
}

-- VDR wants service 7, and OSCam answers at the second address.
abbrev news : PmtObj
news = record { sid = 7; adapter = 1; pireserved = 0xF0; pilen = 0; body = []; ecm = no_ecm_info }

abbrev capmt : List ℕ
capmt = 3 ∷ 0 ∷ 7 ∷ 1 ∷ 0xF0 ∷ 0 ∷ []

abbrev there : Round
there = record { timed_out = false; addresses = some (unreachable ∷ reached ∷ []); poll = quiet }

abbrev lost : Round
lost = record { timed_out = false; addresses = none; poll = poll_error }

abbrev asked : State
asked = record start { pmt = (process_sid_request 0 1 7 3 capmt []).0 }

abbrev connection : State
connection = (action_round codes 0 [] there asked).0

connection-Reached : Reached codes 0 [] connection
connection-Reached =
    then_step asked connection (then_step start asked at_start (requested 1 7 3 capmt start))
      (round there asked)

news_asked : asked.pmt ≡ news ∷ []
unfolding process_sid_request after_removal remove_pmt new_pmt program_info_length
news_asked = refl

is_connected : connection.connected ≡ true
unfolding action_round reconnect connects process_sid_request after_removal remove_pmt new_pmt
    program_info_length
is_connected = refl

news_kept : connection.pmt ≡ news ∷ []
unfolding action_round reconnect connects process_sid_request after_removal remove_pmt new_pmt
    program_info_length
news_kept = refl

is_lost : (action_round codes 0 [] lost connection).0.connected ≡ false
unfolding action_round reconnect connects receive_round close_connection process_sid_request
    after_removal remove_pmt new_pmt program_info_length
is_lost = refl

is_there : connects (unreachable ∷ reached ∷ []) ≡ true
unfolding connects
is_there = refl

action_round_recovers_example :
    action_round codes 0 [] there (action_round codes 0 [] lost connection).0 ≡ (
      record connection { connected = true; faults = 0; pending = []; filters = [] },
      client_info_message [] ∷ send_all 0 connection.pmt,
    )
action_round_recovers_example =
    action_round_recovers codes 0 [] connection lost there news [] connection-Reached is_connected
      news_kept is_lost is_there

-- The connection is lost, and VDR's thread asks for a service before the filters are stopped.
abbrev between : State
between = record (close_socket connection) {
  pmt = (process_sid_request 0 1 7 3 capmt (close_socket connection).pmt).0;
}
