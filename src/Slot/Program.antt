-- ===== src/Slot/Program.antt =====
-- The loops of `Process` over a CA_PMT, against a CA_PMT written out from a description of a service.
use vdr_plugin_dvbapi.Prelude.{
  ℕ, zero, suc, ◌+◌, ◌*◌, ◌/◌, ◌%◌, ◌<◌, ◌≤◌, ◌≡◌, refl, bit_and, true, false, not, ◌||◌, Option,
  none, some, List, [], ◌∷◌, ◌++◌, ltb, ◌==◌, ==_iff, each_below, each_below_sound, length,
  length-append, get_or, drop-append_length, arith, if◌then◌else◌, All,
}
use vdr_plugin_dvbapi.Slot.{Commands, no_commands, note_info, info_length, streams, scan}

-- The info of a program or of an elementary stream: nothing, or a command with descriptors.
pub record Info : Type 0 where
  pub command : ℕ
  pub descriptors : List ℕ

pub record Stream : Type 0 where
  pub kind : ℕ
  pub pid_high : ℕ
  pub pid_low : ℕ
  pub info : Option Info

unfoldable pub info_bytes : Option Info → List ℕ
info_bytes none = []
info_bytes (some i) = i.command ∷ i.descriptors

abbrev pub IsShort : Option Info → Type 0
IsShort i = length (info_bytes i) < 4096

unfoldable pub encode_info : Option Info → List ℕ
unfolding info_bytes
encode_info i = let n = length (info_bytes i) in (0xF0 + n / 256) ∷ (n % 256) ∷ info_bytes i

abbrev pub encode_stream : Stream → List ℕ
encode_stream s = s.kind ∷ s.pid_high ∷ s.pid_low ∷ encode_info s.info

unfoldable pub encode_streams : List Stream → List ℕ
encode_streams [] = []
encode_streams (s ∷ ss) = encode_stream s ++ encode_streams ss

unfoldable pub encode : ℕ → ℕ → ℕ → Option Info → List Stream → List ℕ
unfolding encode_info encode_streams
encode lm sid version info ss =
    lm ∷ (sid / 256) ∷ (sid % 256) ∷ version ∷ encode_info info ++ encode_streams ss

-- What the description says: the last command of all, and whether there is any descriptor.
unfoldable pub note : Option Info → Commands → Commands
note none c = c
note (some i) c = record {
  ci_cmd = some i.command;
  has_ca = not (length i.descriptors == 0) || c.has_ca;
}

unfoldable pub note_streams : List Stream → Commands → Commands
unfolding note
note_streams [] c = c
note_streams (s ∷ ss) c = note_streams ss (note s.info c)

unfoldable pub commands : Option Info → List Stream → Commands
unfolding note_streams
commands info ss = note_streams ss (note info no_commands)

length_table : each_below (λ h. bit_and (0xF0 + h) 0x0F == h) 16 ≡ true
unfolding each_below
length_table = refl

pub info_length_lem : (n : ℕ) → n < 4096 → info_length (0xF0 + n / 256) (n % 256) ≡ n
info_length_lem n h =
    let high : bit_and (0xF0 + n / 256) 0x0F ≡ n / 256 =
      (==_iff _ _).0 (each_below_sound _ _ (n / 256) length_table (omega arith)) in
    rw high (omega arith)

-- The info at a pointer is noted, whatever stands behind it.
note_info-append :
    (i : Option Info) (rest : List ℕ) (c : Commands)
    → note_info (length (info_bytes i)) (info_bytes i ++ rest) c ≡ note i c
unfolding note_info info_bytes note
note_info-append none rest c = refl
note_info-append (some i) rest c = ground (arith, length-append i.descriptors rest)

streams-encode :
    (fuel : ℕ) (ss : List Stream) (c : Commands)
    → length (encode_streams ss) ≤ fuel
    → All (λ s. IsShort s.info) ss
    → streams fuel (encode_streams ss) c ≡ note_streams ss c
unfolding streams encode_streams encode_info note_streams
streams-encode zero [] c h a = refl
streams-encode zero (s ∷ ss) c h a = absurd (omega arith)
streams-encode (suc fuel) [] c h a = refl
streams-encode (suc fuel) (s ∷ ss) c h (short, others) =
    let n = length (info_bytes s.info) in
    let after : ℕ = length (encode_streams ss) in
    let size : length (info_bytes s.info ++ encode_streams ss) ≡ n + after =
      length-append (info_bytes s.info) (encode_streams ss) in
    rw
      (
        info_length_lem n short,
        drop-append_length n (info_bytes s.info) (encode_streams ss) refl,
        note_info-append s.info (encode_streams ss) c,
        streams-encode fuel ss (note s.info c) (omega (arith, size)) others,
      )
      (long_enough (length (info_bytes s.info ++ encode_streams ss)) c
        (note_streams ss (note s.info c)))
  where
    long_enough :
        (k : ℕ) (x y : Commands) → (if ltb (suc (suc (suc (suc (suc k))))) 5 then x else y) ≡ y
    long_enough k x y = ground arith

-- Over the CA_PMT of a service, the loops of Process find the last command that the program or an
-- elementary stream has, and whether any of them has a descriptor, if each info is below 4096 bytes.
pub scan-encode :
    (lm sid version : ℕ) (info : Option Info) (ss : List Stream)
    → IsShort info
    → All (λ s. IsShort s.info) ss
    → scan (encode lm sid version info ss) ≡ commands info ss
unfolding scan encode encode_info commands
scan-encode lm sid version info ss short shorts =
    let n = length (info_bytes info) in
    let size : length (info_bytes info ++ encode_streams ss) ≡ n + length (encode_streams ss) =
      length-append (info_bytes info) (encode_streams ss) in
    rw
      (
        info_length_lem n short,
        drop-append_length n (info_bytes info) (encode_streams ss) refl,
        note_info-append info (encode_streams ss) no_commands,
      )
      (streams-encode (length (encode lm sid version info ss)) ss (note info no_commands)
        (omega (arith, size)) shorts)

-- The header of a CA_PMT.
module _ (lm sid version : ℕ) (info : Option Info) (ss : List Stream) where
  pub encode_long : ltb (length (encode lm sid version info ss)) 6 ≡ false
  unfolding encode encode_info
  encode_long = ground arith

  pub encode_sid :
      get_or (encode lm sid version info ss) 1 0 * 256 + get_or (encode lm sid version info ss) 2 0
      ≡ sid
  unfolding encode
  encode_sid = omega arith

  pub encode_lm : get_or (encode lm sid version info ss) 0 0 ≡ lm
  unfolding encode
  encode_lm = refl
