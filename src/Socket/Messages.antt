-- ===== src/Socket/Messages.antt =====
-- SocketHandler.cpp: `Action` from the first byte of a message on, and `HandleMessage`. A message is
-- read by calls of `Receive`; the calls of other components are returned. A number of 32 bits that
-- stands for a signed one keeps its bits.
pub mod Stream
pub mod Formats
pub mod KeyFormats
use vdr_plugin_dvbapi.Prelude.{
  ℕ, zero, suc, ◌+◌, ◌-◌, ◌*◌, ◌%◌, Bool, true, false, List, [], ◌∷◌, Option, none, some, ltb, leb,
  ◌==◌, length, get_or, take, drop, if◌then◌else◌,
}
use vdr_plugin_dvbapi.Capmt.{EcmInfo}
use vdr_plugin_dvbapi.Filter.{dmx_filter_size}
use vdr_plugin_dvbapi.Socket.{RecvEvent, receive}

-- Code that calls `Receive` for a number of bytes at a time. It fails where the code returns false.
pub data Reading (A : Type 0) : Type 0 where
  fail : Reading A
  done : A → Reading A
  get : ℕ → (List ℕ → Reading A) → Reading A

module _ {A : Type 0} where
  pub run : Reading A → List RecvEvent → Option (A × List RecvEvent)
  run fail es = none
  run (done a) es = some (a, es)
  run (get n k) es = elim (receive n es) [ none ↦ none | some (bytes, es') ↦ run (k bytes) es' ]

-- `ntohs` and `ntohl` of what stands at an offset.
abbrev pub word : List ℕ → ℕ → ℕ
word buf i = get_or buf i 0 * 256 + get_or buf (i + 1) 0

abbrev pub long_word : List ℕ → ℕ → ℕ
long_word buf i = word buf i * 65536 + word buf (i + 2)

-- The calls of `DeCSA`, `cDvbapiFilter` and `CAPMT`, and `protocol_version`.
pub data Call : Type 0 where
  set_ca_pid : ℕ → ℕ → ℕ → Call
  set_aes : ℕ → Bool → Call
  set_descr : ℕ → ℕ → ℕ → List ℕ → Call
  set_descr_aes : ℕ → ℕ → List ℕ → Call
  set_algo : ℕ → ℕ → Call
  set_cipher_mode : ℕ → ℕ → Call
  set_data : ℕ → ℕ → ℕ → List ℕ → Call
  set_filter : ℕ → ℕ → ℕ → ℕ → ℕ → Option (List ℕ × List ℕ) → Call
  server_version : ℕ → Call
  update_ecm : ℕ → ℕ → EcmInfo → Call

-- `ReceiveString`: the text is what stands before the first zero.
unfoldable pub until_zero : List ℕ → List ℕ
until_zero [] = []
until_zero (zero ∷ s) = []
until_zero (suc c ∷ s) = suc c ∷ until_zero s

unfoldable pub get_string : {A : Type 0} → (List ℕ → Reading A) → Reading A
unfolding until_zero
get_string k = get 1 (λ len. get (get_or len 0 0) (λ s. k (until_zero s)))

-- The request numbers of the kernel's headers.
pub record Codes : Type 0 where
  pub ca_set_pid : ℕ
  pub ca_set_descr : ℕ
  pub dmx_set_filter : ℕ
  pub dmx_stop : ℕ

abbrev pub server_info : ℕ
server_info = 0xFFFF0002

abbrev pub ecm_info : ℕ
ecm_info = 0xFFFF0003

-- The branches of `HandleMessage`, for the adapter.
module _ (adapter : ℕ) where
  pub handle_pid : Reading (List Call)
  handle_pid = get 8 (λ buf. done (set_ca_pid adapter (long_word buf 0) (long_word buf 4) ∷ []))

  pub handle_descr : Reading (List Call)
  handle_descr = get 16 (λ buf. done (
      set_aes (long_word buf 0) false
      ∷ set_descr adapter (long_word buf 0) (long_word buf 4) (drop 8 buf)
      ∷ []))

  pub handle_filter : Reading (List Call)
  handle_filter = get (2 + 2 + 3 * dmx_filter_size + 4 + 4) (λ buf. done (
      set_filter adapter (word buf 2) 1 (get_or buf 0 0) (get_or buf 1 0)
        (some (take dmx_filter_size (drop 4 buf), take dmx_filter_size (drop 20 buf)))
      ∷ []))

  pub handle_stop : Reading (List Call)
  handle_stop =
      get 4 (λ buf.
        done (set_filter adapter (word buf 2) 0 (get_or buf 0 0) (get_or buf 1 0) none ∷ []))

  pub handle_ecm_info : Reading (List Call)
  unfolding get_string
  handle_ecm_info = get 2 (λ sid. get 2 (λ caid. get 2 (λ pid. get 4 (λ prid. get 4 (λ ecmtime.
      get_string (λ cardsystem. get_string (λ reader. get_string (λ from. get_string (λ protocol.
        get 1 (λ hops. done (
          update_ecm adapter (word sid 0) (record {
            caid = word caid 0;
            pid = word pid 0;
            prid = long_word prid 0;
            ecmtime = long_word ecmtime 0;
            cardsystem = cardsystem;
            reader = reader;
            from = from;
            protocol = protocol;
            hops = get_or hops 0 0;
          })
          ∷ [])))))))))))

pub handle_descr_aes : Reading (List Call)
handle_descr_aes = get 24 (λ buf. done (
    set_aes (long_word buf 0) true
    ∷ set_descr_aes (long_word buf 0) (long_word buf 4) (drop 8 buf)
    ∷ []))

pub handle_mode : Reading (List Call)
handle_mode = get 12 (λ buf. done (
    set_algo (long_word buf 0) (long_word buf 4)
    ∷ set_cipher_mode (long_word buf 0) (long_word buf 8)
    ∷ []))

pub handle_data : Reading (List Call)
handle_data = get 16 (λ header.
    let read = get (long_word header 12) (λ body. done (
      set_aes (long_word header 0) false
      ∷ set_data (long_word header 0) (long_word header 4) (long_word header 8) body
      ∷ [])) in
    if ltb 262 (long_word header 12) then fail else read)

unfoldable pub handle_server_info : Reading (List Call)
unfolding get_string
handle_server_info =
    get 2 (λ version. get_string (λ info. done (server_version (word version 0) ∷ [])))

-- `HandleMessage` and the lines of `Action` before it, over the kernel's numbers and the option
-- `AdapterIndexOffset`.
module _ (codes : Codes) where
  unfoldable pub handle_message : ℕ → ℕ → Reading (List Call)
  handle_message request adapter =
      if request == codes.ca_set_pid
      then handle_pid adapter
      else if request == codes.ca_set_descr
      then handle_descr adapter
      else if request == 0x40106F87
      then handle_descr_aes
      else if request == 0x400C6F88
      then handle_mode
      else if request == 0x40186F89
      then handle_data
      else if request == codes.dmx_set_filter
      then handle_filter adapter
      else if request == codes.dmx_stop
      then handle_stop adapter
      else if request == server_info
      then handle_server_info
      else if request == ecm_info
      then handle_ecm_info adapter
      else fail

  unfoldable pub read_message : ℕ → Reading (List Call)
  unfolding handle_message
  read_message offset = get 4 (λ request.
      if long_word request 0 == server_info
      then handle_message (long_word request 0) 0
      else get 1 (λ index.
        handle_message (long_word request 0) ((get_or index 0 0 + (256 - offset % 256)) % 256)))
