-- ===== src/Frame/Buffer.antt =====
-- A ring buffer that is a list of bytes and never wraps around, for runs.
use vdr_plugin_dvbapi.Prelude.{
  ℕ, ◌-◌, ◌≡◌, refl, sym, ◌∙◌, append-nil, Option, none, some, List, [], ◌∷◌, ◌++◌, length, drop,
}
use vdr_plugin_dvbapi.Frame.{RingBuffer}

abbrev pub get_list : List ℕ → Option (List ℕ)
get_list [] = none
get_list (b ∷ bytes) = some (b ∷ bytes)

got_all : (bytes rest : List ℕ) → get_list bytes ≡ some rest → bytes ≡ rest
got_all [] rest e = cc e
got_all (b ∷ bytes) rest e = cc e

pub list_buffer-get :
    (rb bytes : List ℕ) → get_list rb ≡ some bytes → (later : List ℕ) × (rb ≡ bytes ++ later)
list_buffer-get rb bytes e = ([], got_all rb bytes e ∙ sym (append-nil bytes))

abbrev pub list_buffer : RingBuffer
list_buffer = record {
  Rb = List ℕ;
  content = λ rb. rb;
  room = λ rb. 8191 - length rb;
  put = λ bytes rb. rb ++ bytes;
  get = get_list;
  del = λ n rb. drop n rb;
  clear = λ rb. [];
  available = λ rb. length rb;
  content-put = λ bytes rb h. refl;
  content-get = list_buffer-get;
  content-del = λ n rb bytes e h. refl;
  content-clear = λ rb. refl;
  length-content = λ rb. refl;
}
