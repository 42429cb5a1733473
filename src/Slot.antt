-- ===== src/Slot.antt =====
-- SCCAMSlot.cpp and SCCAMSlot.h: the CAM slot that VDR talks to. VDR's TPDUs come in, and what the
-- slot does for one is returned as a list of actions in their order. A result of `none` stands for
-- a run that C++ leaves undefined: a byte read behind the buffer, or an `int` that overflows.
mod Tests
pub mod Length
pub mod Program
pub mod Answer
pub mod Service
pub mod Fill
pub mod Module
use vdr_plugin_dvbapi.Prelude.{
  ℕ, zero, suc, ◌+◌, ◌*◌, ◌/◌, ◌%◌, ◌^◌, min, bit_and, Bool, true, false, not, ◌&&◌, ◌||◌, Option,
  none, some, List, [], ◌∷◌, ◌++◌, ltb, leb, ◌==◌, if◌then◌else◌, length, get_or, take, drop,
}

-- `GetLength`: the length field at a pointer, and the pointer behind it.
abbrev pub int_limit : ℕ
int_limit = 2 ^ 31

pub length_bytes : ℕ → ℕ → List ℕ → Option (ℕ × List ℕ)
length_bytes zero len p = some (len, p)
length_bytes (suc i) len [] = none
length_bytes (suc i) len (b ∷ p) =
    let next = len * 256 + b in
    let rest = length_bytes i next p in if ltb next int_limit then rest else none

pub get_length : List ℕ → Option (ℕ × List ℕ)
unfolding length_bytes
get_length [] = none
get_length (b ∷ p) = if bit_and b 0x80 == 0 then some (b, p) else length_bytes (bit_and b 0x7F) 0 p

pub length_size : ℕ → ℕ
length_size n = if ltb n 0x80 then 1 else 3

pub set_size : ℕ → List ℕ
set_size n = if ltb n 0x80 then n ∷ [] else 0x82 ∷ (n / 256 % 256) ∷ bit_and n 0xFF ∷ []

-- What `Process` does. A frame is one that it gets from `Frame::GetBuff`, fills and puts; a CA_PMT
-- of no bytes stands for a null pointer.
pub data Action : Type 0 where
  put_frame : List ℕ → Action
  init_parity : ℕ → Bool → Action
  sid_request : ℕ → ℕ → List ℕ → Action

-- `CaInfo`: the size that it asks `GetBuff` for, and the bytes.
pub ca_info_size : ℕ
unfolding length_size
ca_info_size = let n = 2 + 8 + length_size 2 in n + 1 + length_size n

pub ca_info : ℕ → ℕ → List ℕ
ca_info tcid cid =
    let n = 2 + 8 + length_size 2 in
    (0xA0 ∷ set_size n)
    ++ (tcid % 256)
      ∷ 0x90
      ∷ 0x02
      ∷ (cid / 256 % 256)
      ∷ bit_and cid 0xFF
      ∷ 0x9F
      ∷ 0x80
      ∷ 0x31
      ∷ set_size 2
    ++ 0xFF ∷ 0xFF ∷ []

-- `ci_cmd` and `HasCaDescriptors`. A command of -1 is `none`.
pub record Commands : Type 0 where
  pub ci_cmd : Option ℕ
  pub has_ca : Bool

abbrev pub no_commands : Commands
no_commands = record { ci_cmd = none; has_ca = false }

-- The info field of `ilen` bytes at a pointer, with the bytes that are left.
pub note_info : ℕ → List ℕ → Commands → Commands
note_info ilen p c =
    if ltb 0 ilen && leb ilen (length p)
    then record { ci_cmd = some (get_or p 0 0); has_ca = ltb 1 ilen || c.has_ca }
    else c

abbrev pub info_length : ℕ → ℕ → ℕ
info_length high low = bit_and high 0x0F * 256 + low

-- The loop over the elementary streams.
pub streams : ℕ → List ℕ → Commands → Commands
streams zero p c = c
streams (suc fuel) p c =
    let ilen = info_length (get_or p 3 0) (get_or p 4 0) in
    let rest = drop 5 p in
    let next = streams fuel (drop ilen rest) (note_info ilen rest c) in
    if ltb (length p) 5 then c else next

-- Both loops over the CA_PMT, which has six bytes or more.
pub scan : List ℕ → Commands
unfolding streams
scan capmt =
    let ilen = info_length (get_or capmt 4 0) (get_or capmt 5 0) in
    let rest = drop 6 capmt in
    streams (length capmt) (drop ilen rest) (note_info ilen rest no_commands)

-- The answer to a query.
pub pmt_reply : ℕ → ℕ → ℕ → List ℕ
pmt_reply tcid cid sid =
    0xA0
    ∷ (4 + 9)
    ∷ (tcid % 256)
    ∷ 0x90
    ∷ 0x02
    ∷ (cid / 256 % 256)
    ∷ bit_and cid 0xFF
    ∷ 0x9F
    ∷ 0x80
    ∷ 0x33
    ∷ 4
    ∷ (sid / 256 % 256)
    ∷ bit_and sid 0xFF
    ∷ 0x00
    ∷ 0x81
    ∷ []

abbrev pub is_cmd : ℕ → Option ℕ → Bool
is_cmd n none = false
is_cmd n (some cmd) = cmd == n

abbrev pub no_cmd : Option ℕ → Bool
no_cmd none = true
no_cmd (some cmd) = false

-- The three decisions on a CA_PMT, by the command, the list management and the service id.
pub is_query : Option ℕ → ℕ → Bool
is_query cmd lm = is_cmd 0x03 cmd || is_cmd 0x01 cmd && lm == 0x03

pub is_stop : Option ℕ → ℕ → ℕ → Bool
is_stop cmd lm sid = is_cmd 0x04 cmd || no_cmd cmd && (sid == 0 && lm == 0x03)

pub is_start : Option ℕ → ℕ → ℕ → Bool
is_start cmd lm sid =
    is_cmd 0x01 cmd || no_cmd cmd && (not (sid == 0) && (lm == 0x03 || (lm == 0x04 || lm == 0x05)))

-- `Process`, where `do_reply` is the field, `has_decsa` says that `decsa` is set, and `updated` is
-- what `Check` returns.
module _ (do_reply has_decsa : Bool) where
  abbrev pub parity : ℕ → Bool → List Action
  parity sid stop = if has_decsa then init_parity sid stop ∷ [] else []

  pub decide : ℕ → ℕ → List ℕ → List Action
  unfolding scan is_query is_stop is_start
  decide tcid cid capmt =
      let lm = get_or capmt 0 0 in
      let sid = get_or capmt 1 0 * 256 + get_or capmt 2 0 in
      let c = scan capmt in
      let reply =
        if do_reply && is_query c.ci_cmd lm then put_frame (pmt_reply tcid cid sid) ∷ [] else [] in
      let request =
        if is_stop c.ci_cmd lm sid
        then sid_request sid lm [] ∷ parity sid true
        else if is_start c.ci_cmd lm sid
        then parity sid false ++ sid_request sid lm (if c.has_ca then capmt else []) ∷ []
        else [] in
      reply ++ request

  -- The body of the tagged object, with as many bytes as there are of the `dlen` that it claims.
  pub tagged : ℕ → ℕ → ℕ → List ℕ → List Action
  unfolding decide
  tagged tcid cid tag body =
      if tag == 0x9F8030
      then put_frame (ca_info tcid cid) ∷ []
      else if tag == 0x9F8032 && leb 6 (length body)
      then decide tcid cid body
      else []

  -- Behind the length of the TPDU, of which `p` has `dlen` bytes.
  pub session : ℕ → List ℕ → Option (List Action)
  unfolding get_length tagged
  session dlen p =
      let tcid = get_or p 0 0 in
      let cid = get_or p 3 0 * 256 + get_or p 4 0 in
      let tag = get_or p 5 0 * 65536 + get_or p 6 0 * 256 + get_or p 7 0 in
      let inner = elim (get_length (drop 8 p)) as (λ _. Option (List Action)) [
        | none ↦ none
        | some (n, body) ↦ some (tagged tcid cid tag (take n body))
      ] in
      if ltb dlen 8 || not (get_or p 1 0 == 0x90) then some [] else inner

  pub checked : Bool → ℕ → List ℕ → Option (List Action)
  unfolding session
  checked updated dlen [] = none
  checked updated dlen (tcid ∷ p) = elim (session dlen (tcid ∷ p)) [
    | none ↦ none
    | some acts ↦ some ((if updated then put_frame (ca_info tcid 0x01) ∷ [] else []) ++ acts)
  ]

  pub process : Bool → List ℕ → Option (List Action)
  unfolding get_length checked
  process updated tpdu = elim (get_length (drop 3 tpdu)) [
    | none ↦ none
    | some (dlen, p) ↦ checked updated (min dlen (length p)) p
  ]
