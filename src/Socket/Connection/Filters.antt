-- ===== src/Socket/Connection/Filters.antt =====
-- The states that the socket thread and the other threads reach together: what there is of OSCam's
-- filters without a connection. A round with its CloseConnection is one step here; Closing.antt takes
-- the two parts of it apart.
use vdr_plugin_dvbapi.Prelude.{
  ℕ, ◌+◌, ◌≡◌, refl, sym, ap, subst, ◌∙◌, Bool, true, false, not, ◌&&◌, ◌||◌, Option, none, some,
  List, [], ◌∷◌, ◌++◌, ◌==◌, if◌then◌else◌,
}
use vdr_plugin_dvbapi.Capmt.{process_sid_request}
use vdr_plugin_dvbapi.Filter.{PidMap}
use vdr_plugin_dvbapi.Filter.Packets.{analyze}
use vdr_plugin_dvbapi.Filter.Packets.Empty.{analyze-empty}
use vdr_plugin_dvbapi.Filter.Control.{stop_all_filters}
use vdr_plugin_dvbapi.Socket.{RecvEvent}
use vdr_plugin_dvbapi.Socket.Messages.{Call, Codes, run, read_message}
use vdr_plugin_dvbapi.Socket.Connection.{
  State, start, Round, Poll, quiet, poll_error, readable, perform, perform_all, close_connection,
  reconnect, receive_round, finish_round, action_round, open_connection, is_empty,
}

-- Without a connection there are no filters, and with one there are no faults.
abbrev pub Settled : Bool → ℕ → PidMap → Type 0
Settled true faults filters = faults ≡ 0
Settled false faults filters = filters ≡ []

abbrev pub IsSettled : State → Type 0
IsSettled s = Settled s.connected s.faults s.filters

if-IsSettled :
    (b : Bool) (x y : State)
    → (b ≡ true → IsSettled x)
    → (b ≡ false → IsSettled y)
    → IsSettled (if b then x else y)
if-IsSettled true x y h g = h refl
if-IsSettled false x y h g = g refl

close_connection-IsSettled : (s : State) → IsSettled s → IsSettled (close_connection s)
unfolding close_connection stop_all_filters
close_connection-IsSettled s h = if-IsSettled s.connected _ _ (λ e. refl) (λ e. h)

perform_keeps :
    (c : Call) (s : State)
    → ((perform c s).connected ≡ s.connected) × ((perform c s).faults ≡ s.faults)
perform_keeps (Call.set_ca_pid a b c) s = (refl, refl)
perform_keeps (Call.set_aes a b) s = (refl, refl)
perform_keeps (Call.set_descr a b c d) s = (refl, refl)
perform_keeps (Call.set_descr_aes a b c) s = (refl, refl)
perform_keeps (Call.set_algo a b) s = (refl, refl)
perform_keeps (Call.set_cipher_mode a b) s = (refl, refl)
perform_keeps (Call.set_data a b c d) s = (refl, refl)
perform_keeps (Call.set_filter a b c d e none) s = (refl, refl)
perform_keeps (Call.set_filter a b c d e (some (flt, mask))) s = (refl, refl)
perform_keeps (Call.server_version a) s = (refl, refl)
perform_keeps (Call.update_ecm a b c) s = (refl, refl)

pub perform_all_keeps :
    (cs : List Call) (s : State)
    → ((perform_all cs s).connected ≡ s.connected) × ((perform_all cs s).faults ≡ s.faults)
unfolding perform_all
perform_all_keeps [] s = (refl, refl)
perform_all_keeps (c ∷ cs) s =
    let (connected, faults) = perform_all_keeps cs (perform c s) in
    let (connected', faults') = perform_keeps c s in (connected ∙ connected', faults ∙ faults')

module _ (codes : Codes) (offset : ℕ) (info : List ℕ) where
  finish_round-IsSettled :
      (r : Option (List Call × List RecvEvent)) (s : State)
      → s.connected ≡ true
      → IsSettled s
      → IsSettled (finish_round codes offset info r s)
  finish_round-IsSettled none s open_now h = close_connection-IsSettled s h
  finish_round-IsSettled (some (calls, later)) s open_now h =
      let (connected, faults) = perform_all_keeps calls (record s { pending = later }) in
      let no_faults : s.faults ≡ 0 = subst (λ b. Settled b s.faults s.filters) open_now h in
      subst
        (λ b.
          Settled b (perform_all calls (record s { pending = later })).faults
            (perform_all calls (record s { pending = later })).filters)
        (sym (connected ∙ open_now)) (faults ∙ no_faults)

  receive_round-IsSettled :
      (p : Poll) (s : State)
      → s.connected ≡ true
      → IsSettled s
      → IsSettled (receive_round codes offset info p s)
  unfolding receive_round
  receive_round-IsSettled quiet s open_now h = h
  receive_round-IsSettled poll_error s open_now h = close_connection-IsSettled s h
  receive_round-IsSettled (readable es) s open_now h =
      finish_round-IsSettled (run (read_message codes offset) (s.pending ++ es)) s open_now h

  if-first :
      (b : Bool) (x y : State × List (List ℕ))
      → (b ≡ true → IsSettled x.0)
      → (b ≡ false → IsSettled y.0)
      → IsSettled (if b then x else y).0
  if-first true x y h g = h refl
  if-first false x y h g = g refl

  reconnect-IsSettled :
      (r : Round) (s : State)
      → s.connected ≡ false
      → IsSettled s
      → IsSettled (reconnect codes offset info r s).0
  unfolding reconnect
  reconnect-IsSettled r s closed h =
      let failed : IsSettled (record s { faults = s.faults + 1 }) =
        subst (λ b. Settled b (s.faults + 1) s.filters) (sym closed)
          (subst (λ b. Settled b s.faults s.filters) closed h) in
      if-first (not (is_empty s.pmt) && (s.faults == 0 || r.timed_out)) _ _
        (λ e. if-first (open_connection r.addresses) _ _ (λ o. refl) (λ o. failed)) (λ e. h)

  pub action_round-IsSettled :
      (r : Round) (s : State) → IsSettled s → IsSettled (action_round codes offset info r s).0
  unfolding action_round
  action_round-IsSettled r s h =
      if-first s.connected _ _ (λ e. receive_round-IsSettled r.poll s e h)
        (λ e. reconnect-IsSettled r s e h)

  -- The steps: a round of Action, Analyze and ProcessSIDRequest on the threads of VDR, and Stop.
  pub data Step : State → State → Type 0 where
    round : (r : Round) (s : State) → Step s (action_round codes offset info r s).0
    analyzed :
        (caid_of_pid : ℕ → ℕ → ℕ) (adapter : ℕ) (buf : List ℕ) (s : State)
        → Step s (record s { filters = (analyze caid_of_pid adapter buf s.filters).0 })
    requested :
        (card_index sid lm : ℕ) (capmt : List ℕ) (s : State)
        → Step s (record s { pmt = (process_sid_request offset card_index sid lm capmt s.pmt).0 })
    stopped : (s : State) → Step s (close_connection s)

  pub data Reached : State → Type 0 where
    at_start : Reached start
    then_step : (s s' : State) → Reached s → Step s s' → Reached s'

  -- Analyze changes no filter table that is empty.
  pub analyzed-Settled :
      (b : Bool) (faults : ℕ) (filters : PidMap) (caid_of_pid : ℕ → ℕ → ℕ) (adapter : ℕ)
      (buf : List ℕ)
      → Settled b faults filters
      → Settled b faults (analyze caid_of_pid adapter buf filters).0
  analyzed-Settled true faults filters caid_of_pid adapter buf h = h
  analyzed-Settled false faults filters caid_of_pid adapter buf h =
      ap (λ m. (analyze caid_of_pid adapter buf m).0) h ∙ analyze-empty caid_of_pid adapter buf

  Step-IsSettled : (s s' : State) → Step s s' → IsSettled s → IsSettled s'
  Step-IsSettled _ _ (round r s) h = action_round-IsSettled r s h
  Step-IsSettled _ _ (analyzed caid_of_pid adapter buf s) h =
      analyzed-Settled s.connected s.faults s.filters caid_of_pid adapter buf h
  Step-IsSettled _ _ (requested card_index sid lm capmt s) h = h
  Step-IsSettled _ _ (stopped s) h = close_connection-IsSettled s h

  -- In every state that is reached in whole rounds, the filter table is empty where there is no connection, so that no
  -- filter of a lost connection stays, and the count of faults is 0 where there is one.
  pub Reached-IsSettled : (s : State) → Reached s → IsSettled s
  Reached-IsSettled _ at_start = refl
  Reached-IsSettled _ (then_step s s' before step) =
      Step-IsSettled s s' step (Reached-IsSettled s before)
