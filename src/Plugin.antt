-- ===== src/Plugin.antt =====
-- DVBAPI.cpp and DVBAPISetup.cpp: the options of the plugin, from the command line, the setup file and
-- the setup menu, and the service that it offers to other plugins.
pub mod Options
mod Tests
use vdr_plugin_dvbapi.Prelude.{
  ℕ, ◌+◌, Bool, true, false, not, ◌&&◌, Option, none, some, List, [], ◌∷◌, ltb, leb, ◌==◌,
  if◌then◌else◌,
}
use vdr_plugin_dvbapi.Capmt.{PmtObj, EcmInfo, fill_ecm_info}

-- The global variables that the options set.
pub record Settings : Type 0 where
  pub log_level : ℕ
  pub host : List ℕ
  pub port : ℕ
  pub fast_ecm : ℕ
  pub offset : ℕ

abbrev pub defaults : Settings
defaults = record {
  log_level = 2;
  host = 108 ∷ 111 ∷ 99 ∷ 97 ∷ 108 ∷ 104 ∷ 111 ∷ 115 ∷ 116 ∷ [];
  port = 2000;
  fast_ecm = 1;
  offset = 0;
}

-- `strcasecmp` finds no difference.
abbrev pub lower : ℕ → ℕ
lower c = if leb 65 c && leb c 90 then c + 32 else c

pub same_name : List ℕ → List ℕ → Bool
same_name [] [] = true
same_name [] (d ∷ ds) = false
same_name (c ∷ cs) [] = false
same_name (c ∷ cs) (d ∷ ds) = lower c == lower d && same_name cs ds

-- "LogLevel", "OSCamHost", "OSCamPort", "OSCamFastECM" and "AdapterIndexOffset".
abbrev pub name_log_level : List ℕ
name_log_level = 76 ∷ 111 ∷ 103 ∷ 76 ∷ 101 ∷ 118 ∷ 101 ∷ 108 ∷ []

abbrev pub name_host : List ℕ
name_host = 79 ∷ 83 ∷ 67 ∷ 97 ∷ 109 ∷ 72 ∷ 111 ∷ 115 ∷ 116 ∷ []

abbrev pub name_port : List ℕ
name_port = 79 ∷ 83 ∷ 67 ∷ 97 ∷ 109 ∷ 80 ∷ 111 ∷ 114 ∷ 116 ∷ []

abbrev pub name_fast_ecm : List ℕ
name_fast_ecm = 79 ∷ 83 ∷ 67 ∷ 97 ∷ 109 ∷ 70 ∷ 97 ∷ 115 ∷ 116 ∷ 69 ∷ 67 ∷ 77 ∷ []

abbrev pub name_offset : List ℕ
name_offset =
    65 ∷ 100 ∷ 97 ∷ 112 ∷ 116 ∷ 101 ∷ 114 ∷ 73 ∷ 110 ∷ 100 ∷ 101 ∷ 120 ∷ 79 ∷ 102 ∷ 102 ∷ 115 ∷ 101
    ∷ 116 ∷ []

-- An option as `getopt_long` returns it; the last is one that it does not know.
pub data CommandOption : Type 0 where
  offset_option : List ℕ → CommandOption
  disable_exp unknown_option : CommandOption

-- What the setup menu edits.
pub record Menu : Type 0 where
  pub new_log_level : ℕ
  pub new_host : List ℕ
  pub new_port : ℕ
  pub new_fast_ecm : ℕ

-- Over `atoi`, with the bits of a negative number, and `strn0cpy` of VDR into an array of
-- HOST_NAME_MAX bytes.
module _ (atoi : List ℕ → ℕ) (copy_host : List ℕ → List ℕ) where
  pub process_args : List CommandOption → Settings → Bool × Settings
  process_args [] s = (true, s)
  process_args (offset_option arg ∷ options) s =
      process_args options (record s { offset = atoi arg })
  process_args (disable_exp ∷ options) s = process_args options s
  process_args (unknown_option ∷ options) s = (false, s)

  pub setup_parse : List ℕ → List ℕ → Settings → Bool × Settings
  unfolding same_name
  setup_parse name value s =
      if same_name name name_log_level
      then (true, record s { log_level = atoi value })
      else if same_name name name_host
      then (true, record s { host = copy_host value })
      else if same_name name name_port
      then (true, record s { port = atoi value })
      else if same_name name name_fast_ecm
      then (true, record s { fast_ecm = atoi value })
      else if same_name name name_offset
      then (true, if s.offset == 0 then record s { offset = atoi value } else s)
      else (false, s)

  -- The lines of the setup file, each of which VDR gives to `SetupParse`.
  pub load : List (List ℕ × List ℕ) → Settings → Settings
  unfolding setup_parse
  load [] s = s
  load ((name, value) ∷ lines) s = load lines (setup_parse name value s).1

  -- The constructor of the menu.
  pub open_menu : Settings → Menu
  open_menu s = record {
    new_log_level = s.log_level;
    new_host = copy_host s.host;
    new_port = s.port;
    new_fast_ecm = s.fast_ecm;
  }

  -- `Store`, with the lines that `SetupStore` of VDR then puts into the setup file; `decimal` is how it
  -- writes a number.
  pub store_menu : (ℕ → List ℕ) → Menu → Settings → Settings × List (List ℕ × List ℕ)
  store_menu decimal m s =
      let level = if ltb 3 m.new_log_level then 3 else m.new_log_level in
      let host = copy_host m.new_host in
      (
        record s { log_level = level; host = host; port = m.new_port; fast_ecm = m.new_fast_ecm },
        (name_log_level, decimal level)
            ∷ (name_host, host)
            ∷ (name_port, decimal m.new_port)
            ∷ (name_fast_ecm, decimal m.new_fast_ecm)
            ∷ [],
      )

-- "GetEcmInfo", and `Service`, for a service id where `Data` is not null.
abbrev pub get_ecm_info : List ℕ
get_ecm_info = 71 ∷ 101 ∷ 116 ∷ 69 ∷ 99 ∷ 109 ∷ 73 ∷ 110 ∷ 102 ∷ 111 ∷ []

pub same_bytes : List ℕ → List ℕ → Bool
same_bytes [] [] = true
same_bytes [] (d ∷ ds) = false
same_bytes (c ∷ cs) [] = false
same_bytes (c ∷ cs) (d ∷ ds) = c == d && same_bytes cs ds

pub service : List ℕ → Option ℕ → List PmtObj → Option EcmInfo
unfolding same_bytes
service id none pmt = none
service id (some sid) pmt = if same_bytes id get_ecm_info then fill_ecm_info sid pmt else none
