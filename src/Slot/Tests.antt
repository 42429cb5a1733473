-- ===== src/Slot/Tests.antt =====
-- Runs of the CAM slot on small inputs, and the theorems about it at concrete TPDUs.
use vdr_plugin_dvbapi.Prelude.{ℕ, ◌≡◌, refl, true, false, Option, none, some, List, [], ◌∷◌, arith}
use vdr_plugin_dvbapi.Slot.{
  put_frame, init_parity, sid_request, get_length, length_bytes, pmt_reply, process, checked,
  session,
}
use vdr_plugin_dvbapi.Slot.Program.{
  Info, Stream, encode, encode_info, encode_streams, info_bytes, commands, note, note_streams,
}
use vdr_plugin_dvbapi.Slot.Answer.{tpdu}
use vdr_plugin_dvbapi.Slot.Service.{process_start, process_stop}
use vdr_plugin_dvbapi.Slot.Fill.{Limits, Fill, sleep, limits, can_process}
use vdr_plugin_dvbapi.Slot.Fill.Bounds.{can_process-IsFill, IsFill}
use vdr_plugin_dvbapi.Slot.Fill.Progress.{opens, opens-can_process}
use vdr_plugin_dvbapi.Slot.Module.{CamSlot, ms_reset}

abbrev start_info : Option Info
start_info = some (record { command = 1; descriptors = 9 ∷ 4 ∷ 0x18 ∷ 0x30 ∷ 0 ∷ 1 ∷ [] })

abbrev stop_info : Option Info
stop_info = some (record { command = 4; descriptors = [] })

abbrev film_streams : List Stream
film_streams = record { kind = 2; pid_high = 0xE0; pid_low = 33; info = none } ∷ []

abbrev film_pmt : List ℕ
film_pmt = encode 3 100 1 start_info film_streams

-- The length field takes three bytes from 128 on.
length_300 : get_length (0x82 ∷ 1 ∷ 44 ∷ 7 ∷ []) ≡ some (300, 7 ∷ [])
unfolding get_length length_bytes
length_300 = refl

-- A TPDU that ends at its tag is read behind its end.
truncated_tpdu :
    process true true false (0 ∷ 1 ∷ 0xA0 ∷ 8 ∷ 1 ∷ 0x90 ∷ 2 ∷ 0 ∷ 1 ∷ 0x9F ∷ 0x80 ∷ 0x30 ∷ [])
    ≡ none
unfolding process checked session get_length
truncated_tpdu = refl

process_start_example :
    process true true false (tpdu 1 2 3 0x9F8032 film_pmt)
    ≡ some (put_frame (pmt_reply 2 3 100) ∷ init_parity 100 false ∷ sid_request 100 3 film_pmt ∷ [])
unfolding encode encode_info encode_streams info_bytes commands note note_streams
process_start_example =
    process_start true true false 1 2 3 3 100 1 start_info film_streams (omega arith)
      (omega arith, tt) (omega arith) refl

process_stop_example :
    process true true false (tpdu 1 2 3 0x9F8032 (encode 5 100 1 stop_info film_streams))
    ≡ some (sid_request 100 5 [] ∷ init_parity 100 true ∷ [])
unfolding encode encode_info encode_streams info_bytes commands note note_streams
process_stop_example =
    process_stop true true false 1 2 3 5 100 1 stop_info film_streams (omega arith)
      (omega arith, tt) (omega arith) refl

-- The limits that a slot has.
abbrev slot_limits : Limits
slot_limits = record { max_water_mark = 200000; timeout = 100; data_interval = 40 }

abbrev asleep : Fill
asleep = record {
  phase = sleep;
  low_water_mark = 1000;
  last_count = 376;
  last_data = 5000;
  time_slept = 20;
  tap1 = some 1000;
  tap2 = none;
}

slot_limits_lem : limits 200000 100 40 ≡ slot_limits
unfolding limits
slot_limits_lem = refl

can_process-IsFill_example : IsFill slot_limits (can_process slot_limits 5000 900 asleep).1
can_process-IsFill_example =
    can_process-IsFill slot_limits (omega arith) (omega arith) 5000 900 asleep
      ((omega arith, omega arith), ((omega arith, omega arith), tt), omega arith)

opens-can_process_example : opens slot_limits 5000 900 9 asleep ≡ true
opens-can_process_example =
    opens-can_process slot_limits 5000 900 (omega arith) 2 (omega arith) (omega arith) 5 asleep
      (omega arith) (omega arith)

abbrev fresh_slot : CamSlot
fresh_slot = record { version = 0; reset = true; do_reply = false; last_status = ms_reset }
