-- ===== src/Socket/Connection/Recovery.antt =====
-- What `Action` does once a connection is lost.
use vdr_plugin_dvbapi.Prelude.{
  ℕ, ◌+◌, ◌≡◌, refl, sym, ap, ap₂, subst, ◌∙◌, Bool, true, false, not, ◌&&◌, ◌||◌, Option, none,
  some, List, [], ◌∷◌, ◌++◌, ◌==◌, if◌then◌else◌,
}
use vdr_plugin_dvbapi.Capmt.{PmtObj, send_all}
use vdr_plugin_dvbapi.Filter.Control.{stop_all_filters}
use vdr_plugin_dvbapi.Socket.{RecvEvent}
use vdr_plugin_dvbapi.Socket.Messages.{Call, Codes, run, read_message}
use vdr_plugin_dvbapi.Socket.Connection.{
  State, Round, Poll, quiet, poll_error, readable, close_connection, reconnect, receive_round,
  finish_round, action_round, open_connection, is_empty, client_info_message,
}
use vdr_plugin_dvbapi.Socket.Connection.Filters.{
  Reached, Reached-IsSettled, Settled, perform_all_keeps,
}

abbrev closed_state : State → State
closed_state s = record s { connected = false; pending = []; filters = [] }

closed : (s : State) → s.connected ≡ true → close_connection s ≡ closed_state s
unfolding close_connection stop_all_filters
closed s e = ap (λ b. if b then closed_state s else s) e

module _ (codes : Codes) (offset : ℕ) (info : List ℕ) where
  finish_round_lost :
      (r : Option (List Call × List RecvEvent)) (s : State)
      → s.connected ≡ true
      → (finish_round codes offset info r s).connected ≡ false
      → finish_round codes offset info r s ≡ close_connection s
  finish_round_lost none s open_now lost = refl
  finish_round_lost (some (calls, later)) s open_now lost =
      let (kept, faults) = perform_all_keeps calls (record s { pending = later }) in
      absurd (cc (kept, open_now, lost))

  receive_round_lost :
      (p : Poll) (s : State)
      → s.connected ≡ true
      → (receive_round codes offset info p s).connected ≡ false
      → receive_round codes offset info p s ≡ close_connection s
  unfolding receive_round
  receive_round_lost quiet s open_now lost = absurd (cc (open_now, lost))
  receive_round_lost poll_error s open_now lost = refl
  receive_round_lost (readable es) s open_now lost =
      finish_round_lost (run (read_message codes offset) (s.pending ++ es)) s open_now lost

  round_open :
      (r : Round) (s : State)
      → s.connected ≡ true
      → (action_round codes offset info r s).0 ≡ receive_round codes offset info r.poll s
  unfolding action_round
  round_open r s e =
      let reading : State × List (List ℕ) = (receive_round codes offset info r.poll s, []) in
      ap (λ b. (if b then reading else reconnect codes offset info r s).0) e

  reconnects :
      (r : Round) (s : State) (p : PmtObj) (ps : List PmtObj)
      → s.connected ≡ false
      → s.faults ≡ 0
      → s.pmt ≡ p ∷ ps
      → open_connection r.addresses ≡ true
      → action_round codes offset info r s ≡ (
        record s { connected = true; faults = 0 },
        client_info_message info ∷ send_all offset s.pmt,
      )
  unfolding action_round reconnect
  reconnects r s p ps gone no_faults wanted there =
      let some_service : is_empty s.pmt ≡ false = ap is_empty wanted in
      let first : (s.faults == 0) ≡ true = ap (λ n. n == 0) no_faults in
      let tries : not (is_empty s.pmt) && (s.faults == 0 || r.timed_out) ≡ true =
        ap₂ (λ (a : Bool) (b : Bool). not a && (b || r.timed_out)) some_service first in
      let opened : State × List (List ℕ) = (
        record s { connected = true; faults = 0 },
        client_info_message info ∷ send_all offset s.pmt,
      ) in
      let failed : State × List (List ℕ) = (record s { faults = s.faults + 1 }, []) in
      let unchanged : State × List (List ℕ) = (s, []) in
      let reading : State × List (List ℕ) = (receive_round codes offset info r.poll s, []) in
      ap (λ b. if b then reading else reconnect codes offset info r s) gone
      ∙ ap (λ b. if b then (if open_connection r.addresses then opened else failed) else unchanged)
          tries
      ∙ ap (λ b. if b then opened else failed) there

  -- From a state that is reached, with a connection and a service that VDR wants: if a round loses the
  -- connection and OSCam can be reached in the next, that one connects again at once, whatever the
  -- timer says, has no filters, and sends the client info and the whole list of services.
  pub action_round_recovers :
      (s : State) (lost there : Round) (p : PmtObj) (ps : List PmtObj)
      → Reached codes offset info s
      → s.connected ≡ true
      → s.pmt ≡ p ∷ ps
      → (action_round codes offset info lost s).0.connected ≡ false
      → open_connection there.addresses ≡ true
      → action_round codes offset info there (action_round codes offset info lost s).0 ≡ (
        record s { connected = true; faults = 0; pending = []; filters = [] },
        client_info_message info ∷ send_all offset s.pmt,
      )
  action_round_recovers s lost there p ps reached open_now wanted gone found =
      let e = round_open lost s open_now in
      let end : (action_round codes offset info lost s).0 ≡ closed_state s =
        e
        ∙ receive_round_lost lost.poll s open_now (ap (λ t. t.connected) (sym e) ∙ gone)
        ∙ closed s open_now in
      let no_faults : s.faults ≡ 0 =
        subst (λ b. Settled b s.faults s.filters) open_now
          (Reached-IsSettled codes offset info s reached) in
      ap (λ t. action_round codes offset info there t) end
      ∙ reconnects there (closed_state s) p ps refl no_faults wanted found
