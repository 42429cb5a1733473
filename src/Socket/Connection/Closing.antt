-- ===== src/Socket/Connection/Closing.antt =====
-- SocketHandler.cpp: `CloseConnection` gives its mutex back once `sock` is -1, and stops the filters
-- after the `close`. Between the two the threads of VDR run. (`Stop` closes the connection as well, at
-- the end of the plugin and behind the socket thread: it is no step here.)
use vdr_plugin_dvbapi.Prelude.{
  ℕ, ◌≡◌, refl, ap, subst, ◌∙◌, Bool, true, false, not, ◌&&◌, Option, none, some, List, [], ◌++◌,
  if◌then◌else◌,
}
use vdr_plugin_dvbapi.Capmt.{process_sid_request}
use vdr_plugin_dvbapi.Filter.Packets.{analyze}
use vdr_plugin_dvbapi.Filter.Control.{stop_all_filters}
use vdr_plugin_dvbapi.Socket.{RecvEvent}
use vdr_plugin_dvbapi.Socket.Messages.{Call, Codes, run, read_message}
use vdr_plugin_dvbapi.Socket.Connection.{
  State, start, Round, Poll, quiet, poll_error, readable, close_connection, receive_round,
  finish_round, action_round,
}
use vdr_plugin_dvbapi.Socket.Connection.Filters.{IsSettled, perform_all_keeps}

-- The two parts of CloseConnection.
abbrev pub close_socket : State → State
close_socket s = record s { connected = false; pending = [] }

abbrev pub stop_filters : State → State
stop_filters s = record s { filters = stop_all_filters s.filters }

-- The tables, and whether the socket thread is between the two parts.
pub record Moment : Type 0 where
  pub state : State
  pub closing : Bool

abbrev pub at_moment : State → Bool → Moment
at_moment s closing = record { state = s; closing = closing }

-- There are no filters without a connection but while it is closed, when there is none, and no faults
-- are counted with a connection or while it is closed.
abbrev pub ClosesWhole : State → Bool → Type 0
ClosesWhole s false = IsSettled s
ClosesWhole s true = (s.connected ≡ false) × (s.faults ≡ 0)

abbrev pub IsWhole : Moment → Type 0
IsWhole m = ClosesWhole m.state m.closing

module _ (codes : Codes) (offset : ℕ) (info : List ℕ) where
  -- Whether a round has a connection and ends without.
  abbrev pub loses : Round → State → Bool
  loses r s = s.connected && not (action_round codes offset info r s).0.connected

  -- The steps: a round of Action that keeps or makes a connection or has none, the two parts of a round
  -- that loses it, and Analyze and ProcessSIDRequest on the threads of VDR, at any time.
  pub data CloseStep : Moment → Moment → Type 0 where
    whole_round :
        (r : Round) (s : State)
        → loses r s ≡ false
        → CloseStep (at_moment s false) (at_moment (action_round codes offset info r s).0 false)
    close_begins :
        (r : Round) (s : State)
        → loses r s ≡ true
        → CloseStep (at_moment s false) (at_moment (close_socket s) true)
    close_ends : (s : State) → CloseStep (at_moment s true) (at_moment (stop_filters s) false)
    analyzed :
        (caid_of_pid : ℕ → ℕ → ℕ) (adapter : ℕ) (buf : List ℕ) (s : State) (closing : Bool)
        → CloseStep (at_moment s closing) (
            at_moment
              (record s { filters = (analyze caid_of_pid adapter buf s.filters).0 })
              closing)
    requested :
        (card_index sid lm : ℕ) (capmt : List ℕ) (s : State) (closing : Bool)
        → CloseStep (at_moment s closing) (
            at_moment
              (record s { pmt = (process_sid_request offset card_index sid lm capmt s.pmt).0 })
              closing)

  pub data ReachedMoment : Moment → Type 0 where
    at_start : ReachedMoment (at_moment start false)
    then_step : (m m' : Moment) → ReachedMoment m → CloseStep m m' → ReachedMoment m'

  -- A round that loses the connection is CloseConnection, and this has the two parts.
  both_parts : (s : State) → s.connected ≡ true → close_connection s ≡ stop_filters (close_socket s)
  unfolding close_connection
  both_parts s e = ap (λ b. if b then stop_filters (close_socket s) else s) e

  still_connected : {P : Type 0} (b : Bool) → b ≡ true → not b ≡ true → P
  still_connected true e h = absurd (cc h)
  still_connected false e h = absurd (cc e)

  finish_round-lost :
      (r : Option (List Call × List RecvEvent)) (s : State)
      → s.connected ≡ true
      → not (finish_round codes offset info r s).connected ≡ true
      → finish_round codes offset info r s ≡ stop_filters (close_socket s)
  finish_round-lost none s e h = both_parts s e
  finish_round-lost (some (calls, later)) s e h =
      still_connected _ ((perform_all_keeps calls (record s { pending = later })).0 ∙ e) h

  receive_round-lost :
      (p : Poll) (s : State)
      → s.connected ≡ true
      → not (receive_round codes offset info p s).connected ≡ true
      → receive_round codes offset info p s ≡ stop_filters (close_socket s)
  unfolding receive_round
  receive_round-lost quiet s e h = still_connected s.connected e h
  receive_round-lost poll_error s e h = both_parts s e
  receive_round-lost (readable es) s e h =
      finish_round-lost (run (read_message codes offset) (s.pending ++ es)) s e h

  and_first : (a b : Bool) → a && b ≡ true → a ≡ true
  and_first true b h = refl
  and_first false b h = h

  begins_connected : (r : Round) (s : State) → loses r s ≡ true → s.connected ≡ true
  begins_connected r s h = and_first s.connected _ h

  and_second : (a b : Bool) → a && b ≡ true → b ≡ true
  and_second true b h = h
  and_second false b h = absurd (cc h)

  if-first : (b : Bool) (x y : State × List (List ℕ)) → b ≡ true → (if b then x else y) ≡ x
  if-first true x y h = refl
  if-first false x y h = absurd (cc h)

  action_round-lost :
      (r : Round) (s : State)
      → loses r s ≡ true
      → (action_round codes offset info r s).0 ≡ stop_filters (close_socket s)
  unfolding action_round
  action_round-lost r s h =
      let e = begins_connected r s h in
      let lost : not (action_round codes offset info r s).0.connected ≡ true =
        and_second s.connected _ h in
      let here : (action_round codes offset info r s).0 ≡ receive_round codes offset info r.poll s =
        ap (λ x. x.0) (if-first s.connected _ _ e) in
      here ∙ receive_round-lost r.poll s e (subst (λ x. not x.connected ≡ true) here lost)
