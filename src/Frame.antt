-- ===== src/Frame.antt =====
-- Frame.cpp: the frames of the CI, which stand in a ring buffer of VDR, each behind its length.
pub mod Buffer
pub mod Encoding
pub mod Queue
mod Tests
use vdr_plugin_dvbapi.Prelude.{
  ℕ, ◌+◌, ◌*◌, ◌/◌, ◌%◌, ◌≤◌, ◌≡◌, Bool, true, false, ◌&&◌, Option, none, some, List, [], ◌∷◌, ◌++◌,
  ltb, leb, ◌==◌, get_or, length, take, drop, if◌then◌else◌,
}

-- `cRingBufferLinear` of VDR: `Put`, `Get` (the bytes that can be read at once), `Del`, `Clear` and
-- `Available`, and what they do to the bytes that the buffer holds. `Put` is given here for bytes that
-- there is room for, and `Del` for bytes that `Get` returned.
pub record RingBuffer : Type 1 where
  pub Rb : Type 0
  pub content : Rb → List ℕ
  pub room : Rb → ℕ
  pub put : List ℕ → Rb → Rb
  pub get : Rb → Option (List ℕ)
  pub del : ℕ → Rb → Rb
  pub clear : Rb → Rb
  pub available : Rb → ℕ
  pub content-put :
      (bytes : List ℕ) (rb : Rb)
      → length bytes ≤ room rb
      → content (put bytes rb) ≡ content rb ++ bytes
  pub content-get :
      (rb : Rb) (bytes : List ℕ)
      → get rb ≡ some bytes
      → (later : List ℕ) × (content rb ≡ bytes ++ later)
  pub content-del :
      (n : ℕ) (rb : Rb) (bytes : List ℕ)
      → get rb ≡ some bytes
      → n ≤ length bytes
      → content (del n rb) ≡ drop n (content rb)
  pub content-clear : (rb : Rb) → content (clear rb) ≡ []
  pub length-content : (rb : Rb) → available rb ≡ length (content rb)

-- `LEN_OFF`.
abbrev pub len_off : ℕ
len_off = 2

-- The caller of `GetBuff` writes its bytes at the pointer that it got.
abbrev pub over : List ℕ → List ℕ → List ℕ
over bytes m = take len_off m ++ (bytes ++ drop (len_off + length bytes) m)

-- `Put` writes the length in front.
abbrev pub with_length : ℕ → List ℕ → List ℕ
with_length l m = (l % 256) ∷ (l / 256 % 256) ∷ drop len_off m

-- The length that `Get` reads.
abbrev pub length_field : List ℕ → ℕ
length_field bytes = get_or bytes 0 0 + get_or bytes 1 0 * 256

abbrev pub is_some : Option (List ℕ) → Bool
is_some none = false
is_some (some m) = true

module _ (ring : RingBuffer) where
  open ring use {Rb, put, get, del, clear, available}

  -- The fields of `Frame`: `rb` and `mem` may be null, and `mem` is the memory that it points to.
  pub record Frame : Type 0 where
    pub rb : Option Rb
    pub mem : Option (List ℕ)
    pub len : ℕ
    pub alen : ℕ
    pub glen : ℕ

  -- The constructor, and `SetRb`.
  abbrev pub new_frame : Frame
  new_frame = record { rb = none; mem = none; len = 0; alen = 0; glen = 0 }

  abbrev pub set_rb : Rb → Frame → Frame
  set_rb rb f = record f { rb = some rb }

  abbrev pub get_mem : Option (List ℕ) → ℕ → Frame → Frame
  get_mem none l f = record f { mem = none; alen = 0; len = l }
  get_mem (some m) l f = record f { mem = some m; alen = l; len = l }

  -- `GetBuff`, where `malloc` returns the memory for a number of bytes.
  abbrev pub buff_at : (ℕ → Option (List ℕ)) → ℕ → Option (List ℕ) → Frame → Frame
  buff_at malloc l none f = get_mem (malloc (l + len_off)) l f
  buff_at malloc l (some m) f =
      if ltb f.alen l then get_mem (malloc (l + len_off)) l f else record f { len = l }

  pub get_buff : (ℕ → Option (List ℕ)) → ℕ → Frame → Bool × Frame
  get_buff malloc l f = let f' = buff_at malloc l f.mem f in (is_some f'.mem, f')

  -- The caller writes its bytes.
  pub fill : List ℕ → Frame → Frame
  fill bytes f = elim f.mem as (λ _. Frame) [
    | none ↦ f
    | some m ↦ record f { mem = some (over bytes m) }
  ]

  -- `Put`.
  abbrev pub put_mem : Option Rb → Option (List ℕ) → Frame → Frame
  put_mem (some rb) (some m) f =
      let m' = with_length f.len m in
      record f { rb = some (put (take (f.len + len_off) m') rb); mem = some m' }
  put_mem _ _ f = f

  pub put_frame : Frame → Frame
  put_frame f = put_mem f.rb f.mem f

  -- `Get`, with the length that it stores at the reference: what it makes of the bytes of the buffer.
  abbrev pub read_frame : Option (List ℕ) → Rb → Frame → Option (List ℕ) × Frame
  read_frame none rb f = (none, f)
  read_frame (some bytes) rb f =
      let s = length_field bytes in
      if ltb len_off (length bytes) && leb (s + len_off) (length bytes)
      then (some (take s (drop len_off bytes)), record f { glen = s })
      else (none, record f { rb = some (clear rb) })

  abbrev pub get_at : Option Rb → Frame → Option (List ℕ) × Frame
  get_at none f = (none, f)
  get_at (some rb) f = read_frame (get rb) rb f

  pub get_frame : Frame → Option (List ℕ) × Frame
  get_frame f = get_at f.rb f

  -- `Avail`.
  pub avail : Frame → ℕ
  avail f = elim f.rb as (λ _. ℕ) [ none ↦ 0 | some rb ↦ available rb ]

  -- `Del`.
  abbrev pub del_at : Option Rb → Frame → Frame
  del_at none f = f
  del_at (some rb) f =
      if f.glen == 0 then f else record f { rb = some (del (f.glen + len_off) rb); glen = 0 }

  pub del_frame : Frame → Frame
  del_frame f = del_at f.rb f

  -- What a caller does that has a frame to send: `GetBuff`, its bytes, and `Put`.
  pub send_frame : (ℕ → Option (List ℕ)) → List ℕ → Frame → Frame
  unfolding get_buff fill put_frame
  send_frame malloc bytes f =
      let (ok, f') = get_buff malloc (length bytes) f in
      if ok then put_frame (fill bytes f') else f'
