-- ===== src/Socket/Tests.antt =====
-- Runs of the socket on small scripts, and the theorems about it at concrete scripts.
use vdr_plugin_dvbapi.Prelude.{◌≡◌, refl, false, List, [], ◌∷◌, ◌++◌, some, arith, replicate}
use vdr_plugin_dvbapi.Socket.{
  SendEvent, accepted, send_interrupted, refused, complete, broken, write, RecvEvent, arrived,
  again,
}
use vdr_plugin_dvbapi.Socket.Writing.{write-whole}
use vdr_plugin_dvbapi.Socket.Segments.{content}
use vdr_plugin_dvbapi.Socket.Messages.{
  Codes, set_filter, set_ca_pid, set_algo, set_cipher_mode, set_aes, set_descr, server_version,
  read_message, run, handle_message, handle_server_info, get_string, until_zero,
}
use vdr_plugin_dvbapi.Socket.Messages.Stream.{run_bytes, read_message-content}
use vdr_plugin_dvbapi.Socket.Messages.Formats.{long_bytes, filter_body, read_message-filter_body}
use vdr_plugin_dvbapi.Socket.Messages.KeyFormats.{read_message-key_messages}

abbrev parts : List SendEvent
parts = accepted 1 ∷ send_interrupted ∷ accepted 0 ∷ accepted 9 ∷ []

broken_write : write (1 ∷ 2 ∷ 3 ∷ []) (accepted 1 ∷ refused ∷ []) ≡ (1 ∷ 2 ∷ [], broken)
unfolding write
broken_write = refl

write-whole_example : write (1 ∷ 2 ∷ 3 ∷ []) parts ≡ (1 ∷ 2 ∷ 3 ∷ [], complete)
write-whole_example = write-whole (1 ∷ 2 ∷ 3 ∷ []) parts tt (omega arith)

-- A message with the version of the server, in three segments, and the first byte of the next.
abbrev segments : List RecvEvent
segments =
    arrived 0xFF (0xFF ∷ [])
    ∷ again
    ∷ arrived 0 (2 ∷ 0 ∷ 3 ∷ 2 ∷ 79 ∷ [])
    ∷ arrived 83 (0x40 ∷ [])
    ∷ []

-- The request numbers of Linux on most machines.
abbrev linux_codes : Codes
linux_codes = record {
  ca_set_pid = 0x40086F87;
  ca_set_descr = 0x40106F86;
  dmx_set_filter = 0x403C6F2B;
  dmx_stop = 0x6F2A;
}

read_message-content_example :
    (es' : List RecvEvent) × (run (read_message linux_codes 0) segments
      ≡ some (server_version 3 ∷ [], es'))
    × (content es' ≡ 0x40 ∷ [])
unfolding content run_bytes read_message handle_message handle_server_info get_string until_zero
read_message-content_example =
    read_message-content linux_codes 0 segments (server_version 3 ∷ []) (0x40 ∷ []) refl

read_message-filter_body_example :
    run_bytes (read_message linux_codes 3) (
      long_bytes 0x403C6F2B
      ++ 4
        ∷ (filter_body 2 1 100 (replicate 16 0x80) (replicate 16 0xFF) (replicate 24 0) ++ 9 ∷ []))
    ≡ some (set_filter 1 100 1 2 1 (some (replicate 16 0x80, replicate 16 0xFF)) ∷ [], 9 ∷ [])
read_message-filter_body_example =
    read_message-filter_body linux_codes 3 1 2 1 100 (replicate 16 0x80) (replicate 16 0xFF)
      (replicate 24 0) (9 ∷ [])
      (omega arith, omega arith, omega arith, omega arith, omega arith, omega arith) (omega arith)
      refl refl refl

read_message-key_messages_example :
    (run_bytes
        (read_message linux_codes 3)
        (long_bytes 0x40086F87 ++ 4 ∷ (long_bytes 100 ++ (long_bytes 5 ++ 9 ∷ [])))
      ≡ some (set_ca_pid 1 100 5 ∷ [], 9 ∷ []))
    × (run_bytes (read_message linux_codes 3) (
          long_bytes 0x400C6F88 ++ 4 ∷ (long_bytes 5 ++ (long_bytes 0 ++ (long_bytes 1 ++ 9 ∷ []))))
        ≡ some (set_algo 5 0 ∷ set_cipher_mode 5 1 ∷ [], 9 ∷ []))
    × (run_bytes (read_message linux_codes 3) (
          long_bytes 0x40106F86
          ++ 4 ∷ (long_bytes 5 ++ (long_bytes 1 ++ (replicate 8 7 ++ 9 ∷ []))))
        ≡ some (set_aes 5 false ∷ set_descr 1 5 1 (replicate 8 7) ∷ [], 9 ∷ []))
read_message-key_messages_example =
    read_message-key_messages linux_codes 3 1
      (omega arith, omega arith, omega arith, omega arith, omega arith) (omega arith) 100 5 0 1 1
      (replicate 8 7) (9 ∷ []) (omega arith) (omega arith) (omega arith) (omega arith) (omega arith)
      refl
