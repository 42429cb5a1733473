-- ===== src/CiAdapter.antt =====
-- SCCIAdapter.cpp: Write, Read, ModuleStatus and Assign of the CI adapter, between VDR, which speaks
-- the protocol of a CI, and the slots. `malloc` is an argument, and so is what the slots ask VDR.
pub mod Answer
pub mod Start
mod Tests
use vdr_plugin_dvbapi.Prelude.{
  ℕ, ◌+◌, ◌*◌, ◌≤◌, ◌≡◌, Bool, true, false, not, ◌&&◌, ◌||◌, Option, none, some, List, [], ◌∷◌,
  ◌++◌, ltb, leb, ◌==◌, get_or, get_elem?, set, length, replicate, ◌-◌, if◌then◌else◌,
}
use vdr_plugin_dvbapi.Frame.{RingBuffer, Frame, get_frame, del_frame, send_frame, avail}
use vdr_plugin_dvbapi.Slot.{Action, put_frame, init_parity, sid_request, process}
use vdr_plugin_dvbapi.Slot.Module.{CamSlot, Status, check, status, reset_slot, new_cam_slot}

abbrev pub t_create_tc : ℕ
t_create_tc = 0x82

abbrev pub t_rcv : ℕ
t_rcv = 0x81

abbrev pub t_data_last : ℕ
t_data_last = 0xA0

-- `SB_TAG`, for whether there is an answer to fetch.
abbrev pub sb_tag : ℕ → Bool → List ℕ
sb_tag tcid more = 0x80 ∷ 0x02 ∷ tcid ∷ (if more then 0x80 else 0x00) ∷ []

-- `reqCAS` with the connection.
abbrev pub req_cas : ℕ → List ℕ
req_cas tcid = 0xA0 ∷ 0x07 ∷ tcid ∷ 0x91 ∷ 0x04 ∷ 0x00 ∷ 0x03 ∷ 0x00 ∷ 0x41 ∷ []

-- What the slot asks for in `Check`: `IsDecrypting`, whether its timer is out, the version of the
-- adapter; and whether `decsa` is set.
pub record Query : Type 0 where
  pub decrypting : Bool
  pub timed_out : Bool
  pub adapter_version : ℕ
  pub has_decsa : Bool

module _ (ring : RingBuffer) where
  open ring use {Rb, clear}

  -- A slot: its fields as a module, and the frame of its answers.
  pub record SccamSlot : Type 0 where
    pub cam : CamSlot
    pub answers : Frame ring

  -- The fields of `SCCIAdapter`; a slot is null or there.
  pub record ScciAdapter : Type 0 where
    pub tcid : ℕ
    pub frame : Frame ring
    pub slots : List (Option SccamSlot)
    pub stopped : Bool

  abbrev pub clear_frame : Frame ring → Frame ring
  clear_frame f = record f {
    rb = elim f.rb as (λ _. Option Rb) [ none ↦ none | some rb ↦ some (clear rb) ];
  }

  -- The frames that `SCCAMSlot::Process` sends.
  pub put_answers : (ℕ → Option (List ℕ)) → List Action → Frame ring → Frame ring
  put_answers malloc [] f = f
  put_answers malloc (put_frame bytes ∷ acts) f =
      put_answers malloc acts (send_frame ring malloc bytes f)
  put_answers malloc (init_parity sid stop ∷ acts) f = put_answers malloc acts f
  put_answers malloc (sid_request sid lm pmt ∷ acts) f = put_answers malloc acts f

  -- `SCCAMSlot::Process` with its `Check`, whose `ResetSlot` clears the ring buffer of the answers.
  pub slot_process :
      (ℕ → Option (List ℕ)) → Query → List ℕ → SccamSlot → Option (List Action × SccamSlot)
  unfolding put_answers
  slot_process malloc q buff s =
      let (updated, cam) = check q.decrypting q.timed_out q.adapter_version s.cam in
      let kept =
        if not s.cam.do_reply && not q.decrypting then clear_frame s.answers else s.answers in
      elim (process cam.do_reply q.has_decsa updated buff)
        as (λ _. Option (List Action × SccamSlot)) [
          | none ↦ none
          | some acts ↦ some (acts, record { cam = cam; answers = put_answers malloc acts kept })
        ]

  -- The branches of `Write`, for the slot `i`.
  abbrev pub set_slot : ℕ → SccamSlot → ScciAdapter → ScciAdapter
  set_slot i s a = record a { slots = set a.slots i (some s) }

  abbrev pub send_answer : (ℕ → Option (List ℕ)) → List ℕ → ScciAdapter → ScciAdapter
  send_answer malloc bytes a = record a { frame = send_frame ring malloc bytes a.frame }

  abbrev pub has_answer : SccamSlot → Bool
  has_answer s = ltb 0 (avail ring s.answers)

  abbrev pub deliver_answer :
      (ℕ → Option (List ℕ))
      → ℕ
      → Option (List ℕ) × Frame ring
      → SccamSlot
      → ScciAdapter
      → ScciAdapter
  deliver_answer malloc i (none, f) s a = set_slot i (record s { answers = f }) a
  deliver_answer malloc i (some d, f) s a =
      let s' = record s { answers = del_frame ring f } in
      send_answer malloc (i ∷ a.tcid ∷ d ++ sb_tag a.tcid (has_answer s')) (set_slot i s' a)

  pub receive_answer : (ℕ → Option (List ℕ)) → ℕ → SccamSlot → ScciAdapter → ScciAdapter
  receive_answer malloc i s a = deliver_answer malloc i (get_frame ring s.answers) s a

  pub create_connection : (ℕ → Option (List ℕ)) → ℕ → ℕ → SccamSlot → ScciAdapter → ScciAdapter
  create_connection malloc i tcid s a =
      let s' = record s { answers = send_frame ring malloc (req_cas tcid) s.answers } in
      send_answer malloc (i ∷ tcid ∷ 0x83 ∷ 0x01 ∷ tcid ∷ sb_tag tcid (has_answer s'))
        (set_slot i s' (record a { tcid = tcid }))

  pub process_data :
      (ℕ → Option (List ℕ))
      → Query
      → ℕ
      → List ℕ
      → SccamSlot
      → ScciAdapter
      → Option (List Action × ScciAdapter)
  unfolding slot_process
  process_data malloc q i buff s a =
      elim (slot_process malloc q buff s) as (λ _. Option (List Action × ScciAdapter)) [
        | none ↦ none
        | some (acts, s') ↦ some (
          acts,
          send_answer malloc (i ∷ a.tcid ∷ sb_tag a.tcid (has_answer s')) (set_slot i s' a),
        )
      ]

  -- `Write`, with what the slot does but for its frames.
  abbrev pub write_slot :
      (ℕ → Option (List ℕ))
      → Query
      → List ℕ
      → SccamSlot
      → ScciAdapter
      → Option (List Action × ScciAdapter)
  write_slot malloc q buff s a =
      let i = get_or buff 0 0 in
      let tag = get_or buff 2 0 in
      if tag == t_rcv
      then some ([], receive_answer malloc i s a)
      else if tag == t_create_tc
      then some ([], create_connection malloc i (get_or buff 4 0) s a)
      else if tag == t_data_last
      then process_data malloc q i buff s a
      else some ([], a)

  abbrev pub write_at :
      (ℕ → Option (List ℕ))
      → Query
      → List ℕ
      → Option (Option SccamSlot)
      → ScciAdapter
      → Option (List Action × ScciAdapter)
  write_at malloc q buff (some (some s)) a = write_slot malloc q buff s a
  write_at malloc q buff _ a = some ([], a)

  pub write_tpdu :
      (ℕ → Option (List ℕ)) → Query → List ℕ → ScciAdapter → Option (List Action × ScciAdapter)
  unfolding receive_answer create_connection process_data
  write_tpdu malloc q buff a =
      if ltb (length buff) 5
      then some ([], a)
      else write_at malloc q buff (get_elem? a.slots (get_or buff 0 0)) a

  -- `Read`, with the frame that it returns, if any.
  abbrev pub taken : ℕ → Option (List ℕ) × Frame ring → ScciAdapter → Option (List ℕ) × ScciAdapter
  taken max_length (none, f) a = (none, record a { frame = f })
  taken max_length (some d, f) a =
      (if ltb max_length (length d) then none else some d, record a { frame = del_frame ring f })

  pub read_tpdu : ℕ → ScciAdapter → Option (List ℕ) × ScciAdapter
  read_tpdu max_length a =
      if max_length == 0 then (none, a) else taken max_length (get_frame ring a.frame) a

  -- `ModuleStatus` of a slot number; none stands for `msNone`.
  abbrev pub status_at :
      Query → ℕ → Option (Option SccamSlot) → ScciAdapter → Option Status × ScciAdapter
  status_at q i (some (some s)) a =
      let (st, cam) = status q.decrypting q.timed_out q.adapter_version s.cam in
      let checks = not s.cam.reset && s.cam.version == 0 in
      let clears = checks && (not s.cam.do_reply && not q.decrypting) in
      (
        some st,
        set_slot i
            (record { cam = cam; answers = if clears then clear_frame s.answers else s.answers }) a,
      )
  status_at q i _ a = (none, a)

  pub module_status : Query → ℕ → ScciAdapter → Option Status × ScciAdapter
  module_status q i a = status_at q i (get_elem? a.slots i) a

  -- `Assign` of the adapter, for whether there is a device.
  pub assign : Bool → ScciAdapter → Bool
  assign has_device a = not has_device || not a.stopped

  -- `Stop`, but for what `cCamSlot::Assign` does.
  pub stop_adapter : ScciAdapter → ScciAdapter
  stop_adapter a = record a { stopped = true }

  -- The slots that the constructor creates, one for each device that `provides` CA systems; a slot has
  -- the frame that it allocates.
  pub new_slots : List (Bool × Frame ring) → List (Option SccamSlot)
  new_slots [] = []
  new_slots ((provides, f) ∷ devices) =
      let rest = new_slots devices in
      if provides then some (record { cam = new_cam_slot; answers = f }) ∷ rest else rest

  -- The constructor, over the number MAXDEVICES of VDR and the adapter's own frame.
  pub new_adapter : ℕ → Frame ring → List (Bool × Frame ring) → ScciAdapter
  unfolding new_slots
  new_adapter max_devices f devices = record {
    tcid = 0;
    frame = f;
    slots = new_slots devices ++ replicate (max_devices - length (new_slots devices)) none;
    stopped = false;
  }
