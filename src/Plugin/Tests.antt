-- ===== src/Plugin/Tests.antt =====
-- Options with numbers of one byte, and the theorems about them there.
use vdr_plugin_dvbapi.Prelude.{ℕ, ◌≡◌, refl, List, [], ◌∷◌, get_or, arith}
use vdr_plugin_dvbapi.Plugin.{Settings, Menu, defaults, load, store_menu}
use vdr_plugin_dvbapi.Plugin.Options.{load-store_menu}

abbrev first_byte : List ℕ → ℕ
first_byte value = get_or value 0 0

abbrev one_byte : ℕ → List ℕ
one_byte n = n ∷ []

abbrev no_copy : List ℕ → List ℕ
no_copy host = host

abbrev forced : Settings
forced = record defaults { offset = 5 }

abbrev menu : Menu
menu = record { new_log_level = 4; new_host = 97 ∷ []; new_port = 1988; new_fast_ecm = 0 }

load-store_menu_example :
    load first_byte no_copy (store_menu first_byte no_copy one_byte menu defaults).1 forced
    ≡ record (store_menu first_byte no_copy one_byte menu defaults).0 { offset = 5 }
load-store_menu_example =
    load-store_menu first_byte no_copy one_byte menu defaults forced (λ n h. refl) (λ host. refl)
      (omega arith) (omega arith)
