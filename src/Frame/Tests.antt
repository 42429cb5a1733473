-- ===== src/Frame/Tests.antt =====
-- The theorems about frames at concrete frames.
use vdr_plugin_dvbapi.Prelude.{
  map, concat, ℕ, ◌≡◌, refl, Option, some, List, [], ◌∷◌, replicate, arith,
}
use vdr_plugin_dvbapi.Frame.{Frame, get_frame, del_frame}
use vdr_plugin_dvbapi.Frame.Buffer.{list_buffer}
use vdr_plugin_dvbapi.Frame.Encoding.{encode}
use vdr_plugin_dvbapi.Frame.Queue.{Holds, get_frame-Holds}

-- Memory of zeros.
abbrev zeros : ℕ → Option (List ℕ)
zeros n = some (replicate n 0)

-- A frame with memory for three bytes, and a buffer that holds a frame of one byte.
abbrev one_held : Frame list_buffer
one_held = record {
  rb = some (1 ∷ 0 ∷ 9 ∷ []);
  mem = some (replicate 5 0);
  len = 3;
  alen = 3;
  glen = 0;
}

one_frame : 1 ∷ 0 ∷ 9 ∷ [] ≡ concat (map encode ((9 ∷ []) ∷ []))
unfolding encode
one_frame = refl

get_frame-Holds_example :
    ((get_frame list_buffer one_held).0 ≡ some (9 ∷ []))
    × Holds list_buffer (del_frame list_buffer (get_frame list_buffer one_held).1) []
get_frame-Holds_example =
    get_frame-Holds list_buffer one_held (9 ∷ []) (1 ∷ 0 ∷ 9 ∷ []) [] (1 ∷ 0 ∷ 9 ∷ []) refl
      one_frame refl (omega arith) (omega arith) (omega arith)
