-- ===== src/Socket/Connection.antt =====
-- SocketHandler.cpp: `OpenConnection`, `CloseConnection`, the messages `SendFilterData` and
-- `SendClientInfo`, and a round of the loop of `Action`, over the tables of `cDvbapiFilter` and
-- `CAPMT`. The other threads are the steps between the rounds.
pub mod Filters
pub mod Closing
pub mod Recovery
mod Tests
use vdr_plugin_dvbapi.Prelude.{
  ℕ, zero, suc, ◌+◌, ◌*◌, ◌/◌, ◌%◌, Bool, true, false, not, ◌&&◌, ◌||◌, Option, none, some, List,
  [], ◌∷◌, ◌++◌, length, ◌==◌, if◌then◌else◌,
}
use vdr_plugin_dvbapi.Capmt.{PmtObj, send_all, update_ecm_info}
use vdr_plugin_dvbapi.Filter.{PidMap}
use vdr_plugin_dvbapi.Filter.Control.{stop_all_filters}
use vdr_plugin_dvbapi.Filter.Control
use vdr_plugin_dvbapi.Socket.{RecvEvent}
use vdr_plugin_dvbapi.Socket.Messages.{Call, Codes, run, read_message}

-- `htonl`.
abbrev pub htonl : ℕ → List ℕ
htonl n = (n / 16777216 % 256) ∷ (n / 65536 % 256) ∷ (n / 256 % 256) ∷ (n % 256) ∷ []

pub filter_data_message : ℕ → ℕ → List ℕ → List ℕ
filter_data_message demux num section = htonl 0xFFFF0000 ++ (demux % 256) ∷ (num % 256) ∷ section

-- For the text of `INFO_VERSION`.
pub client_info_message : List ℕ → List ℕ
client_info_message info = htonl 0xFFFF0001 ++ 0 ∷ 2 ∷ (length info % 256) ∷ info

-- What `socket` and `connect` do for an address.
pub data Attempt : Type 0 where
  no_socket unreachable reached : Attempt

pub connects : List Attempt → Bool
connects [] = false
connects (no_socket ∷ attempts) = connects attempts
connects (unreachable ∷ attempts) = connects attempts
connects (reached ∷ attempts) = true

-- `OpenConnection`: whether there is a socket then. None stands for an error of `getaddrinfo`.
abbrev pub open_connection : Option (List Attempt) → Bool
open_connection none = false
open_connection (some attempts) = connects attempts

-- Whether there is a socket, `faults`, what has come in and is not read, and the tables.
pub record State : Type 0 where
  pub connected : Bool
  pub faults : ℕ
  pub pending : List RecvEvent
  pub filters : PidMap
  pub pmt : List PmtObj

abbrev pub start : State
start = record { connected = false; faults = 0; pending = []; filters = []; pmt = [] }

pub close_connection : State → State
close_connection s =
    if s.connected
    then record s { connected = false; pending = []; filters = stop_all_filters s.filters }
    else s

-- What a `poll` finds: nothing or an interrupt, an error, or what the calls of `recv` then find.
pub data Poll : Type 0 where
  quiet poll_error : Poll
  readable : List RecvEvent → Poll

-- What a round meets: `checkTimer`, the addresses of OSCam, and the poll.
pub record Round : Type 0 where
  pub timed_out : Bool
  pub addresses : Option (List Attempt)
  pub poll : Poll

-- The calls that change the tables here. `SetDVBAPIPid`, which `SetFilter` calls, and the other calls
-- are those of `DeCSA`.
abbrev pub perform : Call → State → State
perform (Call.set_filter adapter pid start demux num none) s = record s {
  filters = (Control.set_filter adapter pid start demux num none none s.filters).0;
}
perform (Call.set_filter adapter pid start demux num (some (flt, mask))) s = record s {
  filters = (Control.set_filter adapter pid start demux num (some flt) (some mask) s.filters).0;
}
perform (Call.update_ecm adapter sid info) s = record s {
  pmt = update_ecm_info adapter sid info s.pmt;
}
perform _ s = s

pub perform_all : List Call → State → State
perform_all [] s = s
perform_all (c ∷ cs) s = perform_all cs (perform c s)

abbrev pub is_empty : List PmtObj → Bool
is_empty [] = true
is_empty (p ∷ ps) = false

-- Over the request numbers, the option `AdapterIndexOffset`, and the text of `INFO_VERSION`.
module _ (codes : Codes) (offset : ℕ) (info : List ℕ) where
  -- The branch without a socket, with the messages that it writes.
  pub reconnect : Round → State → State × List (List ℕ)
  reconnect r s =
      let tries = not (is_empty s.pmt) && (s.faults == 0 || r.timed_out) in
      let opened : State × List (List ℕ) = (
        record s { connected = true; faults = 0 },
        client_info_message info ∷ send_all offset s.pmt,
      ) in
      let failed : State × List (List ℕ) = (record s { faults = s.faults + 1 }, []) in
      if tries then if open_connection r.addresses then opened else failed else (s, [])

  -- The branch with a socket.
  abbrev pub finish_round : Option (List Call × List RecvEvent) → State → State
  finish_round none s = close_connection s
  finish_round (some (calls, later)) s = perform_all calls (record s { pending = later })

  pub receive_round : Poll → State → State
  receive_round quiet s = s
  receive_round poll_error s = close_connection s
  receive_round (readable es) s = finish_round (run (read_message codes offset) (s.pending ++ es)) s

  pub action_round : Round → State → State × List (List ℕ)
  unfolding reconnect receive_round
  action_round r s = if s.connected then (receive_round r.poll s, []) else reconnect r s
