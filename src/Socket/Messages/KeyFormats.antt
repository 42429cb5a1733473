-- ===== src/Socket/Messages/KeyFormats.antt =====
-- The messages of OSCam that give a service its key, written out, and the calls that reading them makes.
use vdr_plugin_dvbapi.Prelude.{
  ℕ, ◌+◌, ◌*◌, ◌/◌, ◌%◌, ◌^◌, ◌<◌, ◌≡◌, ◌≢◌, refl, ◌∙◌, sym, ap, true, false, List, [], ◌∷◌, ◌++◌,
  some, ◌==◌, ==_refl, length, length-append, take-append_length, drop-append_length, arith,
}
use vdr_plugin_dvbapi.Socket.Messages.{
  Reading, Call, set_ca_pid, set_algo, set_cipher_mode, set_aes, set_descr, Codes, read_message,
  handle_message, handle_pid, handle_mode, handle_descr,
}
use vdr_plugin_dvbapi.Socket.Messages.Stream.{run_bytes, run_bytes-there, run_bytes-done}
use vdr_plugin_dvbapi.Socket.Messages.Formats.{long_bytes, read_message-long_bytes}

whole_word :
    (n : ℕ)
    → n < 2 ^ 32
    → (n / 16777216 * 256 + n / 65536 % 256) * 65536 + (n / 256 % 256 * 256 + n % 256) ≡ n
whole_word n h = omega arith

handle_pid-long_bytes :
    (adapter pid index : ℕ) (rest : List ℕ)
    → pid < 2 ^ 32
    → index < 2 ^ 32
    → run_bytes (handle_pid adapter) (long_bytes pid ++ (long_bytes index ++ rest))
      ≡ some (set_ca_pid adapter pid index ∷ [], rest)
unfolding handle_pid long_bytes
handle_pid-long_bytes adapter pid index rest hp hi =
    run_bytes-there 8 _ (long_bytes pid ++ (long_bytes index ++ rest)) (ground arith)
    ∙ rw (whole_word pid hp, whole_word index hi)
        (run_bytes-done (set_ca_pid adapter pid index ∷ []) rest)

handle_mode-long_bytes :
    (index algo mode : ℕ) (rest : List ℕ)
    → index < 2 ^ 32
    → algo < 2 ^ 32
    → mode < 2 ^ 32
    → run_bytes handle_mode (long_bytes index ++ (long_bytes algo ++ (long_bytes mode ++ rest)))
      ≡ some (set_algo index algo ∷ set_cipher_mode index mode ∷ [], rest)
unfolding handle_mode long_bytes
handle_mode-long_bytes index algo mode rest hi ha hm =
    let bytes = long_bytes index ++ (long_bytes algo ++ (long_bytes mode ++ rest)) in
    run_bytes-there 12 _ bytes (ground arith)
    ∙ rw (whole_word index hi, whole_word algo ha, whole_word mode hm)
        (run_bytes-done (set_algo index algo ∷ set_cipher_mode index mode ∷ []) rest)

handle_descr-long_bytes :
    (adapter index parity : ℕ) (cw rest : List ℕ)
    → index < 2 ^ 32
    → parity < 2 ^ 32
    → length cw ≡ 8
    → run_bytes (handle_descr adapter) (long_bytes index ++ (long_bytes parity ++ (cw ++ rest)))
      ≡ some (set_aes index false ∷ set_descr adapter index parity cw ∷ [], rest)
unfolding handle_descr long_bytes
handle_descr-long_bytes adapter index parity cw rest hi hp size =
    let bytes = long_bytes index ++ (long_bytes parity ++ (cw ++ rest)) in
    let there = take-append_length 8 cw rest (sym size) in
    let left = drop-append_length 8 cw rest (sym size) in
    let enough : 8 + length rest ≡ length (cw ++ rest) = omega (arith, length-append cw rest) in
    run_bytes-there 16 _ bytes (ground arith)
    ∙ rw (whole_word index hi, whole_word parity hp, there, left)
        (run_bytes-done (set_aes index false ∷ set_descr adapter index parity cw ∷ []) rest)

module _ (codes : Codes) where
  -- The numbers of the kernel for the pids and the control words differ from each other and from
  -- OSCam's.
  abbrev pub AreKeyCodes : Type 0
  AreKeyCodes =
      (codes.ca_set_pid < 0xFFFF0000)
      × (codes.ca_set_descr < 0xFFFF0000)
      × (codes.ca_set_descr ≢ codes.ca_set_pid)
      × (codes.ca_set_pid ≢ 0x400C6F88)
      × (codes.ca_set_descr ≢ 0x400C6F88)

  branches :
      (adapter : ℕ)
      → AreKeyCodes
      → (handle_message codes codes.ca_set_pid adapter ≡ handle_pid adapter)
        × (handle_message codes 0x400C6F88 adapter ≡ handle_mode)
        × (handle_message codes codes.ca_set_descr adapter ≡ handle_descr adapter)
  unfolding handle_message
  branches adapter (h1, h2, h3, h4, h5) =
      let e1 : (codes.ca_set_pid == codes.ca_set_pid) ≡ true = ==_refl _ in
      let e2 : (codes.ca_set_descr == codes.ca_set_descr) ≡ true = ==_refl _ in
      let e3 : (codes.ca_set_descr == codes.ca_set_pid) ≡ false = ground arith in
      let e4 : (0x400C6F88 == codes.ca_set_pid) ≡ false = ground arith in
      let e5 : (0x400C6F88 == codes.ca_set_descr) ≡ false = ground arith in
      (rw e1 refl, rw (e4, e5) refl, rw (e3, e2) refl)

  module _ (offset adapter : ℕ) (h : AreKeyCodes) (small : adapter < 256) where
    abbrev head : ℕ → List ℕ → List ℕ
    head request body = long_bytes request ++ ((adapter + offset) % 256) ∷ body

    -- The messages that OSCam writes for CA_SET_PID, CA_SET_DESCR_MODE and CA_SET_DESCR, with an adapter
    -- below 256 by the number that the plugin gave it, 32-bit numbers and a control word of 8 bytes: each
    -- is read as the calls of SetCaPid, of SetAlgo and SetCipherMode, or of SetAes and SetDescr with
    -- these numbers, and nothing behind the message is read.
    pub read_message-key_messages :
        (pid index algo mode parity : ℕ) (cw rest : List ℕ)
        → pid < 2 ^ 32
        → index < 2 ^ 32
        → algo < 2 ^ 32
        → mode < 2 ^ 32
        → parity < 2 ^ 32
        → length cw ≡ 8
        → (run_bytes
              (read_message codes offset)
              (head codes.ca_set_pid (long_bytes pid ++ (long_bytes index ++ rest)))
            ≡ some (set_ca_pid adapter pid index ∷ [], rest))
          × (run_bytes (read_message codes offset) (
                head 0x400C6F88
                  (long_bytes index ++ (long_bytes algo ++ (long_bytes mode ++ rest))))
              ≡ some (set_algo index algo ∷ set_cipher_mode index mode ∷ [], rest))
          × (run_bytes
                (read_message codes offset)
                (head codes.ca_set_descr (long_bytes index ++ (long_bytes parity ++ (cw ++ rest))))
              ≡ some (set_aes index false ∷ set_descr adapter index parity cw ∷ [], rest))
    read_message-key_messages pid index algo mode parity cw rest hp hi ha hm hq size =
        let (to_pid, to_mode, to_descr) = branches adapter h in
        let (h1, h2, h3, h4, h5) = h in
        let pid_body = long_bytes pid ++ (long_bytes index ++ rest) in
        let mode_body = long_bytes index ++ (long_bytes algo ++ (long_bytes mode ++ rest)) in
        let descr_body = long_bytes index ++ (long_bytes parity ++ (cw ++ rest)) in
        (
          read_message-long_bytes codes offset codes.ca_set_pid adapter pid_body (omega arith)
                (omega arith) small
              ∙ ap (λ (p : Reading (List Call)). run_bytes p pid_body) to_pid
              ∙ handle_pid-long_bytes adapter pid index rest hp hi,
          read_message-long_bytes codes offset 0x400C6F88 adapter mode_body (omega arith)
                (omega arith) small
              ∙ ap (λ (p : Reading (List Call)). run_bytes p mode_body) to_mode
              ∙ handle_mode-long_bytes index algo mode rest hi ha hm,
          read_message-long_bytes codes offset codes.ca_set_descr adapter descr_body (omega arith)
                (omega arith) small
              ∙ ap (λ (p : Reading (List Call)). run_bytes p descr_body) to_descr
              ∙ handle_descr-long_bytes adapter index parity cw rest hi hq size,
        )
