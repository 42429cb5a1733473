-- ===== src/Capmt/Tests.antt =====
-- Runs of `CAPMT` on small inputs, and the theorems about it at concrete services.
use mathlib.Core.Option
use vdr_plugin_dvbapi.Prelude.{ℕ, ◌≡◌, refl, some, List, [], ◌∷◌, arith, get_elem?}
use vdr_plugin_dvbapi.Capmt.{
  PmtObj, EcmInfo, no_ecm_info, send, send_all, new_pmt, remove_pmt, after_removal,
  process_sid_request, find_service, stop_descrambling,
}
use vdr_plugin_dvbapi.Capmt.Message.{parse, vdr_capmt, parse-send-new_pmt}
use vdr_plugin_dvbapi.Capmt.Listing.{nth-send_all}
use vdr_plugin_dvbapi.Capmt.Services.{IsTable}
use vdr_plugin_dvbapi.Capmt.Requests.{find_service-process_sid_request, process_sid_request-IsTable}

abbrev ecm_info : EcmInfo
ecm_info = record no_ecm_info { caid = 0x0963; pid = 0x500 }

abbrev news : PmtObj
news = record { sid = 7; adapter = 0; pireserved = 0xF0; pilen = 0; body = []; ecm = ecm_info }

abbrev sports : PmtObj
sports = record news { sid = 8; ecm = no_ecm_info }

abbrev services : List PmtObj
services = news ∷ sports ∷ []

-- VDR's CA_PMT of service 7: a program info of a command and one descriptor, and one stream.
abbrev news_capmt : List ℕ
news_capmt = vdr_capmt 4 0 7 1 0xF0 3 (1 ∷ 9 ∷ 0 ∷ []) (2 ∷ 0xE1 ∷ 0 ∷ 0xF0 ∷ 0 ∷ [])

services-IsTable : IsTable services
unfolding find_service
services-IsTable = (refl, omega arith, (refl, omega arith, tt))

stop_sent : (process_sid_request 0 0 7 5 [] (news ∷ [])).1 ≡ stop_descrambling ∷ []
unfolding process_sid_request remove_pmt after_removal send_all
stop_sent = refl

find_service-process_sid_request_example :
    find_service 0 7 (process_sid_request 0 0 7 4 news_capmt services).0 ≡ new_pmt 0 7 news_capmt
find_service-process_sid_request_example =
    find_service-process_sid_request 0 0 7 4 news_capmt services services-IsTable 0 7

process_sid_request-IsTable_example : IsTable (process_sid_request 0 0 7 4 news_capmt services).0
process_sid_request-IsTable_example =
    process_sid_request-IsTable 0 0 7 4 news_capmt services services-IsTable

parse-send-new_pmt_example :
    Option.map (λ p. parse (send 0 3 p)) (new_pmt 0 7 news_capmt)
    ≡ some (
        some (record {
          list_management = 3;
          program_number = 7;
          version = 0;
          reserved = 15;
          info_length = 12;
          cmd_id = 1;
          adapter = 0;
          demux = 0;
          ca = 0;
          rest = 9 ∷ 0 ∷ 2 ∷ 0xE1 ∷ 0 ∷ 0xF0 ∷ 0 ∷ [];
        }))
parse-send-new_pmt_example =
    parse-send-new_pmt 0 7 4 0 7 1 0xF0 3 (1 ∷ 9 ∷ 0 ∷ []) (2 ∷ 0xE1 ∷ 0 ∷ 0xF0 ∷ 0 ∷ []) refl 0 3
      (omega arith) (omega arith) (omega arith) (omega arith) (omega arith) (omega arith)

nth-send_all_example :
    (send_all 0 [] ≡ stop_descrambling ∷ [])
    × (get_elem? (send_all 0 services) 1 ≡ some (send 0 2 sports))
nth-send_all_example = nth-send_all 0 news (sports ∷ []) 1
