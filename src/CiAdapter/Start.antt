-- ===== src/CiAdapter/Start.antt =====
-- What VDR sees of the slots that the constructor of `SCCIAdapter` has created.
use vdr_plugin_dvbapi.Prelude.{
  ℕ, zero, suc, ◌<◌, ◌≡◌, ◌≢◌, refl, ◌∙◌, Bool, true, false, Option, some, List, [], ◌∷◌, ◌++◌,
  ◌==◌, ==_refl, length, get_elem?, get_elem?-set, get_elem?_ge, not, ◌&&◌, if◌then◌else◌, arith,
}
use vdr_plugin_dvbapi.Frame.{RingBuffer, Frame}
use vdr_plugin_dvbapi.Slot.Module.{
  CamSlot, Status, ms_reset, ms_present, ms_ready, new_cam_slot, status, status-new_cam_slot,
  status-started, status-checked, status-again,
}
use vdr_plugin_dvbapi.CiAdapter.{
  SccamSlot, ScciAdapter, Query, new_slots, new_adapter, module_status, clear_frame,
}

module _ (ring : RingBuffer) where
  -- The slot `i` is there, with the fields of a module.
  abbrev pub HasSlot : ℕ → CamSlot → ScciAdapter ring → Type 0
  HasSlot i cam a =
      (f : Frame ring) × (get_elem? a.slots i ≡ some (some (record { cam = cam; answers = f })))

  inside :
      (i : ℕ) (a : ScciAdapter ring) (s : SccamSlot ring)
      → get_elem? a.slots i ≡ some (some s)
      → i < length a.slots
  inside i a s found = ground (arith, get_elem?_ge a.slots i)

  module_status-HasSlot :
      (q : Query) (i : ℕ) (a : ScciAdapter ring) (cam cam' : CamSlot) (st : Status)
      → HasSlot i cam a
      → status q.decrypting q.timed_out q.adapter_version cam ≡ (st, cam')
      → ((module_status ring q i a).0 ≡ some st) × HasSlot i cam' (module_status ring q i a).1
  unfolding module_status
  module_status-HasSlot q i a cam cam' st (f, found) e =
      let clears = (not cam.reset && cam.version == 0) && (not cam.do_reply && not q.decrypting) in
      let g : Frame ring = if clears then clear_frame ring f else f in
      let new : SccamSlot ring = record { cam = cam'; answers = g } in
      let there = inside i a (record { cam = cam; answers = f }) found in
      (
        rw (module_status, found, e) refl,
        (
          g,
          rw (module_status, found, e)
              (get_elem?-set a.slots i i (some new) there ∙ rw (==_refl i) refl),
        ),
      )

  new_slots-HasSlot :
      (i : ℕ) (devices : List (Bool × Frame ring)) (rest : List (Option (SccamSlot ring)))
      → i < length (new_slots ring devices)
      → (f : Frame ring) × (get_elem? (new_slots ring devices ++ rest) i
          ≡ some (some (record { cam = new_cam_slot; answers = f })))
  unfolding new_slots
  new_slots-HasSlot i [] rest h = absurd (omega arith)
  new_slots-HasSlot zero ((true, f) ∷ devices) rest h = (f, refl)
  new_slots-HasSlot (suc i) ((true, f) ∷ devices) rest h =
      new_slots-HasSlot i devices rest (omega arith)
  new_slots-HasSlot i ((false, f) ∷ devices) rest h = new_slots-HasSlot i devices rest h

  -- The slot of the `i`-th device with CA systems, from the start of the plugin on, while it descrambles
  -- nothing and its timer is out: VDR asks four times for its status, and gets the reset, that it is
  -- present, the reset that Check asks for, and that it is ready.
  pub module_status-new_adapter :
      (max_devices i : ℕ) (f : Frame ring) (devices : List (Bool × Frame ring)) (q : Query)
      → i < length (new_slots ring devices)
      → q.decrypting ≡ false
      → q.timed_out ≡ true
      → q.adapter_version ≢ 0
      → let a = new_adapter ring max_devices f devices in
        let first = module_status ring q i a in
        let second = module_status ring q i first.1 in
        let third = module_status ring q i second.1 in
        let fourth = module_status ring q i third.1 in
        (first.0 ≡ some ms_reset)
        × (second.0 ≡ some ms_present)
        × (third.0 ≡ some ms_reset)
        × (fourth.0 ≡ some ms_ready)
  unfolding new_adapter
  module_status-new_adapter max_devices i f devices q h idle out some_version =
      let a = new_adapter ring max_devices f devices in
      let v = q.adapter_version in
      let start : HasSlot i new_cam_slot a = new_slots-HasSlot i devices _ h in
      let (first, at_first) =
        module_status-HasSlot q i a _ _ _ start (status-new_cam_slot q.decrypting q.timed_out v) in
      let (second, at_second) =
        module_status-HasSlot q i _ _ _ _ at_first
          (rw (idle, out) (status-started v some_version)) in
      let (third, at_third) =
        module_status-HasSlot q i _ _ _ _ at_second (status-checked q.decrypting q.timed_out v v) in
      let (fourth, at_fourth) =
        module_status-HasSlot q i _ _ _ _ at_third
          (status-again q.decrypting q.timed_out v v some_version) in
      (first, second, third, fourth)
