-- ===== src/Capmt.antt =====
-- CAPMT.cpp and CAPMT.h: the services that VDR wants descrambled, and the CA_PMT messages that tell
-- OSCam of them. What is written to the socket is returned as a list of messages, in the order of
-- the calls of `SocketHandler::Write`. `mutex` serialises the methods, so each is one step.
mod Tests
pub mod Message
pub mod Listing
pub mod Services
pub mod Ecm
pub mod Requests
use vdr_plugin_dvbapi.Prelude.{
  ℕ, ◌+◌, ◌-◌, ◌*◌, ◌/◌, ◌%◌, bit_and, bit_or, Bool, true, false, ◌&&◌, ◌||◌, Option, none, some,
  List, [], ◌∷◌, ◌++◌, ltb, ◌==◌, if◌then◌else◌, length, get_or, drop,
}

-- What OSCam reports of the ECMs of a service: the fields of `pmtobj` behind `data`. A text is the
-- list of its bytes, `hops` the byte of an `int8_t`.
pub record EcmInfo : Type 0 where
  pub caid : ℕ
  pub pid : ℕ
  pub prid : ℕ
  pub ecmtime : ℕ
  pub cardsystem : List ℕ
  pub reader : List ℕ
  pub from : List ℕ
  pub protocol : List ℕ
  pub hops : ℕ

abbrev pub no_ecm_info : EcmInfo
no_ecm_info = record {
  caid = 0;
  pid = 0;
  prid = 0;
  ecmtime = 0;
  cardsystem = [];
  reader = [];
  from = [];
  protocol = [];
  hops = 0;
}

-- `struct pmtobj`. Every entry that is stored has its `data`, of `len` bytes.
pub record PmtObj : Type 0 where
  pub sid : ℕ
  pub adapter : ℕ
  pub pireserved : ℕ
  pub pilen : ℕ
  pub body : List ℕ
  pub ecm : EcmInfo

abbrev pub list_more : ℕ
list_more = 0x00

abbrev pub list_first : ℕ
list_first = 0x01

abbrev pub list_last : ℕ
list_last = 0x02

-- `it->sid == sid && it->adapter == card_index`
abbrev pub is_service : ℕ → ℕ → PmtObj → Bool
is_service adapter sid p = p.sid == sid && p.adapter == adapter

-- `SocketHandler::SendStopDescrambling`: the demux id is a wildcard.
pub stop_descrambling : List ℕ
stop_descrambling = 0x9F ∷ 0x80 ∷ 0x3F ∷ 0x04 ∷ 0x83 ∷ 0x02 ∷ 0x00 ∷ 0xFF ∷ []

-- The methods that write, over the option `AdapterIndexOffset`.
module _ (adapter_offset : ℕ) where
  -- `send`: the message of one service.
  pub send : ℕ → PmtObj → List ℕ
  send ca_lm p =
      let pilen = p.pilen + 1 + 3 + 3 + 3 in
      let length_field = 22 + length p.body - 6 in
      let device = (p.adapter + adapter_offset) % 256 in
      0x9F
      ∷ 0x80
      ∷ 0x32
      ∷ 0x82
      ∷ (length_field / 256 % 256)
      ∷ bit_and length_field 0xFF
      ∷ (ca_lm % 256)
      ∷ (p.sid / 256 % 256)
      ∷ bit_and p.sid 0xFF
      ∷ 0
      ∷ (bit_or p.pireserved (bit_and (pilen / 256) 0x0F) % 256)
      ∷ bit_and pilen 0xFF
      ∷ 0x01
      ∷ 0x83
      ∷ 0x01
      ∷ device
      ∷ 0x86
      ∷ 0x01
      ∷ 0x00
      ∷ 0x87
      ∷ 0x01
      ∷ device
      ∷ p.body

  -- The loop of `SendAll`, with the list management of the next message.
  pub send_from : ℕ → List PmtObj → List (List ℕ)
  send_from lm [] = []
  send_from lm (p ∷ []) = send (bit_or lm list_last) p ∷ []
  send_from lm (p ∷ q ∷ ps) = send lm p ∷ send_from list_more (q ∷ ps)

  pub send_all : List PmtObj → List (List ℕ)
  unfolding send_from stop_descrambling
  send_all [] = stop_descrambling ∷ []
  send_all (p ∷ ps) = send_from list_first (p ∷ ps)

-- The list without the first entry of the service, if there is one.
unfoldable pub remove_pmt : ℕ → ℕ → List PmtObj → Option (List PmtObj)
remove_pmt adapter sid [] = none
remove_pmt adapter sid (p ∷ ps) =
    let rest = elim (remove_pmt adapter sid ps) as (λ _. Option (List PmtObj)) [
      | none ↦ none
      | some qs ↦ some (p ∷ qs)
    ] in
    if is_service adapter sid p then some ps else rest

-- `program_info_length` of VDR's CA_PMT, and whether a `ca_pmt_cmd_id` stands behind it.
unfoldable pub program_info_length : List ℕ → ℕ
program_info_length capmt = bit_and (get_or capmt 4 0) 0x0F * 256 + get_or capmt 5 0

abbrev pub cmd_id_len : ℕ → ℕ
cmd_id_len ilen = if ltb 0 ilen then 1 else 0

-- The entry of a service, from VDR's CA_PMT; none if this is too short.
unfoldable pub new_pmt : ℕ → ℕ → List ℕ → Option PmtObj
unfolding program_info_length
new_pmt adapter sid capmt =
    let ilen = program_info_length capmt in
    let offset = cmd_id_len ilen in
    if ltb (length capmt) (6 + offset)
    then none
    else some (record {
      sid = sid;
      adapter = adapter;
      pireserved = bit_and (get_or capmt 4 0) 0xF0;
      pilen = ilen - offset;
      body = drop (6 + offset) capmt;
      ecm = no_ecm_info;
    })

module _ (adapter_offset : ℕ) where
  -- What `ProcessSIDRequest` does once the old entry is gone: `removed` says that there was one. A
  -- CA_PMT of no bytes stands for `vdr_caPMTLen == 0`.
  unfoldable pub after_removal :
      ℕ → ℕ → ℕ → List ℕ → Bool → List PmtObj → List PmtObj × List (List ℕ)
  after_removal adapter sid ca_lm capmt removed pmt =
      let told : List PmtObj × List (List ℕ) = (pmt, send_all adapter_offset pmt) in
      let unchanged : List PmtObj × List (List ℕ) = if removed then told else (pmt, []) in
      if ca_lm == 0x04 || ca_lm == 0x03
      then if ltb 0 (length capmt)
        then elim (new_pmt adapter sid capmt) as (λ _. List PmtObj × List (List ℕ)) [
          | none ↦ unchanged
          | some p ↦ (pmt ++ p ∷ [], send_all adapter_offset (pmt ++ p ∷ []))
        ]
        else unchanged
      else told

  unfoldable pub process_sid_request :
      ℕ → ℕ → ℕ → List ℕ → List PmtObj → List PmtObj × List (List ℕ)
  process_sid_request adapter sid ca_lm capmt pmt =
      let stale = ca_lm == 0x05 && length capmt == 0 in
      if sid == 0 then (pmt, []) else elim (remove_pmt adapter sid pmt) [
        | none ↦ if stale then (pmt, []) else after_removal adapter sid ca_lm capmt false pmt
        | some rest ↦ after_removal adapter sid ca_lm capmt true rest
      ]

-- `GetCAIDFromPid`: the CAID, and the service id that it stores in `sid`.
pub find_pid : ℕ → ℕ → List PmtObj → Option PmtObj
find_pid adapter pid [] = none
find_pid adapter pid (p ∷ ps) =
    if p.ecm.pid == pid && p.adapter == adapter then some p else find_pid adapter pid ps

pub get_caid_from_pid : ℕ → ℕ → List PmtObj → ℕ × ℕ
unfolding find_pid
get_caid_from_pid adapter pid pmt =
    if pid == 0 then (0, 0) else elim (find_pid adapter pid pmt) as (λ _. ℕ × ℕ) [
      | none ↦ (0, 0)
      | some p ↦ (p.ecm.caid, p.sid)
    ]

pub find_service : ℕ → ℕ → List PmtObj → Option PmtObj
find_service adapter sid [] = none
find_service adapter sid (p ∷ ps) =
    if is_service adapter sid p then some p else find_service adapter sid ps

pub get_caid_from_sid : ℕ → ℕ → List PmtObj → ℕ
unfolding find_service
get_caid_from_sid adapter sid pmt = elim (find_service adapter sid pmt) as (λ _. ℕ) [
  | none ↦ 0
  | some p ↦ p.ecm.caid
]

pub update_ecm_info : ℕ → ℕ → EcmInfo → List PmtObj → List PmtObj
update_ecm_info adapter sid info [] = []
update_ecm_info adapter sid info (p ∷ ps) =
    if is_service adapter sid p
    then record p { ecm = info } ∷ ps
    else p ∷ update_ecm_info adapter sid info ps

-- `FillEcmInfo`: the first entry of the service on any adapter; none where it returns false.
pub fill_ecm_info : ℕ → List PmtObj → Option EcmInfo
fill_ecm_info sid [] = none
fill_ecm_info sid (p ∷ ps) = if p.sid == sid then some p.ecm else fill_ecm_info sid ps
