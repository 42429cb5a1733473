-- ===== src/Socket/Messages/Formats.antt =====
-- Messages of OSCam, written out, and the calls that reading them makes.
use vdr_plugin_dvbapi.Prelude.{
  ℕ, ◌+◌, ◌-◌, ◌*◌, ◌/◌, ◌%◌, ◌^◌, ◌<◌, ◌≡◌, ◌≢◌, refl, ◌∙◌, sym, ap, true, false, List, [], ◌∷◌,
  ◌++◌, some, ◌==◌, ==_refl, length, length-append, take-append_length, drop-append_length, arith,
}
use vdr_plugin_dvbapi.Socket.Messages.{
  Reading, Call, set_filter, Codes, server_info, read_message, handle_message, handle_filter,
}
use vdr_plugin_dvbapi.Socket.Messages.Stream.{run_bytes, run_bytes-there, run_bytes-done}

unfoldable pub long_bytes : ℕ → List ℕ
long_bytes n = (n / 16777216) ∷ (n / 65536 % 256) ∷ (n / 256 % 256) ∷ (n % 256) ∷ []

module _ (codes : Codes) (offset : ℕ) where
  -- The head of a message that names an adapter, as the plugin numbered it for OSCam.
  abbrev pub head : ℕ → ℕ → List ℕ
  head request adapter = long_bytes request ++ ((adapter + offset) % 256) ∷ []

  pub read_message-long_bytes :
      (request adapter : ℕ) (body : List ℕ)
      → request < 2 ^ 32
      → request ≢ server_info
      → adapter < 256
      → run_bytes
          (read_message codes offset)
          (long_bytes request ++ ((adapter + offset) % 256) ∷ body)
        ≡ run_bytes (handle_message codes request adapter) body
  unfolding read_message long_bytes
  read_message-long_bytes request adapter body h other small =
      let bytes : List ℕ = long_bytes request ++ ((adapter + offset) % 256) ∷ body in
      let whole : (request / 16777216 * 256 + request / 65536 % 256) * 65536
            + (request / 256 % 256 * 256 + request % 256)
          ≡ request =
        omega arith in
      let differs : (request == server_info) ≡ false = ground arith in
      let back : ((adapter + offset) % 256 + (256 - offset % 256)) % 256 ≡ adapter = omega arith in
      run_bytes-there 4 _ bytes (ground arith)
      ∙ rw (whole, differs)
          (run_bytes-there 1 _ (((adapter + offset) % 256) ∷ body) (ground arith) ∙ rw back refl)

  -- The request numbers of the kernel differ from each other and from OSCam's.
  abbrev pub AreCodes : Type 0
  AreCodes =
      (codes.dmx_set_filter ≢ codes.ca_set_pid)
      × (codes.dmx_set_filter ≢ codes.ca_set_descr)
      × (codes.dmx_set_filter ≢ 0x40106F87)
      × (codes.dmx_set_filter ≢ 0x400C6F88)
      × (codes.dmx_set_filter ≢ 0x40186F89)
      × (codes.dmx_set_filter < 0xFFFF0000)

  filter_branch :
      (adapter : ℕ)
      → AreCodes
      → handle_message codes codes.dmx_set_filter adapter ≡ handle_filter adapter
  unfolding handle_message
  filter_branch adapter (h1, h2, h3, h4, h5, h6) =
      let e1 : (codes.dmx_set_filter == codes.ca_set_pid) ≡ false = ground arith in
      let e2 : (codes.dmx_set_filter == codes.ca_set_descr) ≡ false = ground arith in
      let e3 : (codes.dmx_set_filter == 0x40106F87) ≡ false = ground arith in
      let e4 : (codes.dmx_set_filter == 0x400C6F88) ≡ false = ground arith in
      let e5 : (codes.dmx_set_filter == 0x40186F89) ≡ false = ground arith in
      let e6 : (codes.dmx_set_filter == codes.dmx_set_filter) ≡ true = ==_refl _ in
      rw (e1, e2, e3, e4, e5, e6) refl

-- The body of DMX_SET_FILTER.
unfoldable pub filter_body : ℕ → ℕ → ℕ → List ℕ → List ℕ → List ℕ → List ℕ
filter_body demux num pid flt mask tail =
    demux ∷ num ∷ (pid / 256) ∷ (pid % 256) ∷ flt ++ (mask ++ tail)

handle_filter-filter_body :
    (adapter demux num pid : ℕ) (flt mask tail rest : List ℕ)
    → length flt ≡ 16
    → length mask ≡ 16
    → length tail ≡ 24
    → run_bytes (handle_filter adapter) (filter_body demux num pid flt mask tail ++ rest)
      ≡ some (set_filter adapter pid 1 demux num (some (flt, mask)) ∷ [], rest)
unfolding handle_filter filter_body
handle_filter-filter_body adapter demux num pid flt mask tail rest hf hm ht =
    let body = filter_body demux num pid flt mask tail in
    let inner : length (flt ++ (mask ++ tail)) ≡ 56 =
      omega (arith, length-append flt (mask ++ tail), length-append mask tail) in
    let all : length (body ++ rest) ≡ 60 + length rest =
      omega (arith, length-append (flt ++ (mask ++ tail)) rest) in
    let e1 = take-append_length 56 (flt ++ (mask ++ tail)) rest (sym inner) in
    let e2 = drop-append_length 56 (flt ++ (mask ++ tail)) rest (sym inner) in
    let e3 = take-append_length 16 flt (mask ++ tail) (sym hf) in
    let e4 = drop-append_length 16 flt (mask ++ tail) (sym hf) in
    let e5 = take-append_length 16 mask tail (sym hm) in
    let whole : pid / 256 * 256 + pid % 256 ≡ pid = omega arith in
    run_bytes-there 60 _ (body ++ rest) (ground arith)
    ∙ rw (e1, e2, e3, e4, e5, whole)
        (run_bytes-done (set_filter adapter pid 1 demux num (some (flt, mask)) ∷ []) rest)

-- A DMX_SET_FILTER of OSCam, with 16 bytes of filter and of mask and 24 bytes behind them, for a
-- pid and an adapter below 256 that OSCam knows by the number that the plugin gave it: reading it
-- makes the call of SetFilter that sets this filter, and nothing of the next message is read.
pub read_message-filter_body :
    (codes : Codes) (offset adapter demux num pid : ℕ) (flt mask tail rest : List ℕ)
    → AreCodes codes offset
    → adapter < 256
    → length flt ≡ 16
    → length mask ≡ 16
    → length tail ≡ 24
    → run_bytes (read_message codes offset) (
        long_bytes codes.dmx_set_filter
        ++ ((adapter + offset) % 256) ∷ (filter_body demux num pid flt mask tail ++ rest))
      ≡ some (set_filter adapter pid 1 demux num (some (flt, mask)) ∷ [], rest)
read_message-filter_body codes offset adapter demux num pid flt mask tail rest c small hf hm ht =
    let body = filter_body demux num pid flt mask tail ++ rest in
    let (h1, h2, h3, h4, h5, h6) = c in
    read_message-long_bytes codes offset codes.dmx_set_filter adapter body (omega arith)
      (omega arith) small
    ∙ ap (λ (p : Reading (List Call)). run_bytes p body) (filter_branch codes offset adapter c)
    ∙ handle_filter-filter_body adapter demux num pid flt mask tail rest hf hm ht
