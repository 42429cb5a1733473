-- ===== src/CiAdapter/Tests.antt =====
-- The CI adapter with one slot, and the theorem about it there.
use vdr_plugin_dvbapi.Prelude.{
  ℕ, ◌≡◌, refl, Bool, true, false, Option, none, some, List, [], ◌∷◌, map, concat, replicate,
  length-replicate, arith, ap,
}
use vdr_plugin_dvbapi.Frame.{Frame}
use vdr_plugin_dvbapi.Frame.Buffer.{list_buffer, get_list}
use vdr_plugin_dvbapi.Frame.Encoding.{encode}
use vdr_plugin_dvbapi.Frame.Queue.{Allocates}
use vdr_plugin_dvbapi.Slot.Module.{Status}
use vdr_plugin_dvbapi.CiAdapter.{
  ScciAdapter, SccamSlot, Query, write_tpdu, read_tpdu, module_status, new_adapter, new_slots,
}
use vdr_plugin_dvbapi.CiAdapter.Start.{module_status-new_adapter}
use vdr_plugin_dvbapi.CiAdapter.Answer.{read_tpdu-write_tpdu}

abbrev zeros : ℕ → Option (List ℕ)
zeros n = some (replicate n 0)

zeros-Allocates : Allocates list_buffer zeros
zeros-Allocates n = (replicate n 0, refl, length-replicate n 0)

abbrev frame_over : List ℕ → Frame list_buffer
frame_over bytes = record { rb = some bytes; mem = none; len = 0; alen = 0; glen = 0 }

-- A slot with one answer of a byte.
abbrev slot : SccamSlot list_buffer
slot = record {
  cam = record { version = 1; reset = false; do_reply = true; last_status = Status.ms_ready };
  answers = frame_over (1 ∷ 0 ∷ 9 ∷ []);
}

abbrev adapter : ScciAdapter list_buffer
adapter = record { tcid = 1; frame = frame_over []; slots = some slot ∷ none ∷ []; stopped = false }

abbrev query : Query
query = record { decrypting = false; timed_out = false; adapter_version = 1; has_decsa = true }

one_frame : 1 ∷ 0 ∷ 9 ∷ [] ≡ concat (map encode ((9 ∷ []) ∷ []))
unfolding encode
one_frame = refl

in_one_piece : (rb answer : List ℕ) → rb ≡ encode answer → get_list rb ≡ some (encode answer)
unfolding encode
in_one_piece rb answer e = ap get_list e

read_tpdu-write_tpdu_example :
    (a' : ScciAdapter list_buffer) × (write_tpdu list_buffer zeros query
        (0 ∷ 1 ∷ 0x81 ∷ 1 ∷ 1 ∷ [])
        adapter
      ≡ some ([], a'))
    × ((read_tpdu list_buffer 2048 a').0 ≡ some (0 ∷ 1 ∷ 9 ∷ 0x80 ∷ 0x02 ∷ 1 ∷ 0x00 ∷ []))
read_tpdu-write_tpdu_example =
    read_tpdu-write_tpdu list_buffer zeros query (0 ∷ 1 ∷ 0x81 ∷ 1 ∷ 1 ∷ []) adapter slot (9 ∷ [])
      (1 ∷ 0 ∷ 9 ∷ []) [] (1 ∷ 0 ∷ 9 ∷ []) [] 2048 zeros-Allocates tt (omega arith) refl refl refl
      one_frame refl (omega arith) (omega arith) (omega arith) refl refl (omega arith)
      (in_one_piece _ (0 ∷ 1 ∷ 9 ∷ 0x80 ∷ 0x02 ∷ 1 ∷ 0x00 ∷ []) refl) (omega arith)

-- The first device has no CA systems, the second does.
abbrev two_devices : List (Bool × Frame list_buffer)
two_devices = (false, frame_over []) ∷ (true, frame_over []) ∷ []

abbrev later : Query
later = record query { timed_out = true }

abbrev asked : ScciAdapter list_buffer → Option Status × ScciAdapter list_buffer
asked = module_status list_buffer later 0

abbrev created : ScciAdapter list_buffer
created = new_adapter list_buffer 16 (frame_over []) two_devices

module_status-new_adapter_example :
    ((asked created).0 ≡ some Status.ms_reset)
    × ((asked (asked created).1).0 ≡ some Status.ms_present)
    × ((asked (asked (asked created).1).1).0 ≡ some Status.ms_reset)
    × ((asked (asked (asked (asked created).1).1).1).0 ≡ some Status.ms_ready)
unfolding new_slots
module_status-new_adapter_example =
    module_status-new_adapter list_buffer 16 0 (frame_over []) two_devices later (omega arith) refl
      refl (omega arith)
